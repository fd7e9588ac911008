-- ===== src/MindState.antt =====
-- src/dollos/mind/mind_state.py: the state of the mind, and how it is saved and loaded.
pub mod Json
pub mod Rows
pub mod State
pub mod RoundTrip
mod Examples
