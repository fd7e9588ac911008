-- ===== src/Evolution.antt =====
-- src/dollos/mind/evolution.py and what moves its pending slot: how a text becomes who Doll is. The
-- slot, the history and current_self.md of src/dollos/mind/self_history.py and current_self.py.
pub mod Texts
pub mod Slot
pub mod Store
pub mod Tripwire
pub mod Review
pub mod Revision
pub mod Moves
pub mod Sanction
pub mod Transitions
pub mod Verdicts
pub mod Sound
pub mod Passes
pub mod Decisions
pub mod Reviewed
pub mod Expiry
pub mod Outcomes
mod Adoption
mod Examples
