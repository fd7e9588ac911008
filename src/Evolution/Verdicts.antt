-- ===== src/Evolution/Verdicts.antt =====
-- What a reflection and a verdict do keeps the invariant.
use doll_os.Evolution.Review
use doll_os.Prelude.{ℕ, ◌≡◌, refl, Bool, true, false, Option, none, some, Bool-cases, inl, inr, leb}
use doll_os.Prelude.Floats.{Floats}
use doll_os.Evolution.Texts.{Text}
use doll_os.Evolution.Slot.{
  PendingSlot, Proposal, SlotKind, keeper, counter, external, awaiting_skeptic, awaiting_doll,
  mark_awaiting_doll, revert_to_fallback, surfaced_slot, errored_slot, verdict_errors_bound,
}
use doll_os.Evolution.Store.{
  World, sanctioned_text, save_slot, log_line, same_as, evo_error, evo_repair, evo_expire, evo_kill,
}
use doll_os.Evolution.Review.{
  Verdict, surface, judge, reverdict_once, surface_or_expire, drop_slot, passed, killed, expired,
}
use doll_os.Evolution.Sanction.{
  SlotOk, WorldOk, Ok-clear_slot, Ok-give_back, Ok-log_line, Ok-drop_slot, Ok-save_slot,
}
use doll_os.Evolution.Transitions.{surfaced-Ok, errored-Ok, marked-Ok, reverted-Ok}

module _ (floats : Floats) (Vouched : Text → Type 0) where
  open floats use {Real}

  pub surface-Ok :
      (ok : Bool) (max : ℕ) (age now : Real) (s : PendingSlot floats) (w : World floats)
      → SlotOk floats Vouched s
      → s.status ≡ awaiting_doll
      → WorldOk floats Vouched w
      → WorldOk floats Vouched (surface floats ok max age now s w).1
  unfolding surface
  surface-Ok ok max age now s w so d wo =
      let sanctioned = sanctioned_text w.history in
      elim (Bool-cases (same_as sanctioned s.candidate)) [
        | inl y ↦ rw y (elim (Bool-cases ok) [
          | inl o ↦ rw o (
              Ok-clear_slot floats Vouched (log_line floats (evo_repair sanctioned) w)
                (Ok-log_line floats Vouched (evo_repair sanctioned) w refl wo))
          | inr o ↦ rw o wo
        ])
        | inr n ↦ rw n (elim (Bool-cases (expired floats max age now s)) [
          | inl y ↦ rw y (elim (Bool-cases ok) [
            | inl o ↦ rw o (
                Ok-give_back floats Vouched now s _ (
                  Ok-drop_slot floats Vouched sanctioned _
                    (Ok-log_line floats Vouched (evo_expire s.candidate) w refl wo)))
            | inr o ↦ rw o wo
          ])
          | inr m ↦ rw m (
              Ok-save_slot floats Vouched (surfaced_slot floats s) w
                (surfaced-Ok floats Vouched s so) wo)
        ])
      ]

  pub Ok-error :
      (t : Option Real) (w : World floats)
      → WorldOk floats Vouched w
      → WorldOk floats Vouched (record w { last_error_ts = t })
  Ok-error t w wo = record { slot = wo.slot; adopted = wo.adopted }

  pub judge-Ok :
      (ok : Bool) (verdict : Verdict) (now : Real) (s : PendingSlot floats) (w : World floats)
      → SlotOk floats Vouched s
      → s.status ≡ awaiting_skeptic
      → (verdict ≡ Review.passed → Vouched s.candidate)
      → WorldOk floats Vouched w
      → WorldOk floats Vouched (judge floats ok verdict now s w).1
  unfolding judge
  judge-Ok ok Review.errored now s w so a v wo =
      let t = errored_slot floats now s in
      let w' = record w { last_error_ts = some now } in
      let wo' = Ok-error (some now) w wo in
      elim (Bool-cases (leb verdict_errors_bound t.verdict_errors)) [
        | inl y ↦ rw y (elim (Bool-cases ok) [
          | inl o ↦ rw o (
              Ok-give_back floats Vouched now t _ (
                Ok-drop_slot floats Vouched (sanctioned_text w.history) _
                  (Ok-log_line floats Vouched (evo_expire t.candidate) w' refl wo')))
          | inr o ↦ rw o wo'
        ])
        | inr n ↦ rw n (elim (Bool-cases ok) [
          | inl o ↦ rw o (
              Ok-save_slot floats Vouched t _ (errored-Ok floats Vouched now s so n)
                (Ok-log_line floats Vouched evo_error w' refl wo'))
          | inr o ↦ rw o wo'
        ])
      ]
  judge-Ok ok Review.passed now s w so a v wo =
      Ok-save_slot floats Vouched (mark_awaiting_doll floats s) _
        (marked-Ok floats Vouched s so (v refl)) (Ok-error none w wo)
  judge-Ok false (Review.killed reason) now s w so a v wo = Ok-error none w wo
  judge-Ok true (Review.killed reason) now s w so a v wo = by_kind s.kind (so.returns a)
    where
      w' : World floats
      w' = record w { last_error_ts = none }

      by_kind :
          (k : SlotKind)
          → (k ≡ counter → (p : Proposal) × (s.fallback ≡ some p) × Vouched p.candidate)
          → WorldOk floats Vouched (elim k as (λ x. World floats) [
            | counter ↦
                save_slot floats
                  (revert_to_fallback floats reason s)
                  (log_line floats (evo_kill s.candidate) w')
            | keeper ↦
                drop_slot floats
                  (sanctioned_text w.history)
                  (log_line floats (evo_kill s.candidate) w')
            | external ↦
                drop_slot floats
                  (sanctioned_text w.history)
                  (log_line floats (evo_kill s.candidate) w')
          ])
      by_kind counter r =
          Ok-save_slot floats Vouched (revert_to_fallback floats reason s) _
            (reverted-Ok floats Vouched reason s so (r refl))
            (Ok-log_line floats Vouched (evo_kill s.candidate) w' refl (Ok-error none w wo))
      by_kind keeper r =
          Ok-drop_slot floats Vouched (sanctioned_text w.history) _
            (Ok-log_line floats Vouched (evo_kill s.candidate) w' refl (Ok-error none w wo))
      by_kind external r =
          Ok-drop_slot floats Vouched (sanctioned_text w.history) _
            (Ok-log_line floats Vouched (evo_kill s.candidate) w' refl (Ok-error none w wo))
