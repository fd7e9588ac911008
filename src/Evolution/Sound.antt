-- ===== src/Evolution/Sound.antt =====
-- Only a reviewed text is ever adopted, whatever moves the evolution makes.
use doll_os.Prelude.{
  ℕ, ◌≡◌, refl, Bool, true, false, none, some, Bool-cases, inl, inr, Option-cases, arith,
}
use doll_os.Prelude.Floats.{Floats}
use doll_os.Evolution.Texts.{Text}
use doll_os.Evolution.Slot.{
  PendingSlot, SlotStatus, awaiting_skeptic, awaiting_doll, make_external_slot, waits_for_doll,
}
use doll_os.Evolution.Store.{World, sanctioned_text, load_slot, or_empty, evo_repair, external_edit}
use doll_os.Evolution.Tripwire.{
  crash_repair, already_logged, new_edit, Limits, process_tripwire, complete_edit, propose_edit,
  checks, respond, Action, in_sync, already_logged,
}
use doll_os.Evolution.Review.{
  Verdict, KeeperReply, surface_or_expire, surface, reverdict_once, judge, run_evolution_pass,
  propose, retry, ended, bookkeep, PassOutcome,
}
use doll_os.Evolution.Sanction.{
  WorldOk, Ok-load_slot, Ok-save_slot, Ok-restore_file, Ok-loaded, Ok-log_line,
}
use doll_os.Evolution.Review
use doll_os.Evolution.Transitions.{external-Ok}
use doll_os.Evolution.Verdicts.{surface-Ok, judge-Ok}

module _ (floats : Floats) (Vouched : Text → Type 0) where
  open floats use {Real}

  complete_edit-Ok :
      (limits : Limits) (ok : Bool) (now : Real) (text : Text) (w : World floats)
      → WorldOk floats Vouched w
      → WorldOk floats Vouched (complete_edit floats limits ok now text w)
  unfolding complete_edit
  complete_edit-Ok limits ok now text w wo =
      let r = load_slot floats ok w in
      let ro = Ok-load_slot floats Vouched ok w wo in
      elim (Option-cases r.0) [
        | inr p ↦ rw (complete_edit, p.1) ro
        | inl e ↦
            rw (complete_edit, e)
              (elim (Bool-cases (checks floats limits text)) [
                | inl y ↦ rw y (
                    Ok-save_slot floats Vouched (make_external_slot floats text now) r.1
                      (external-Ok floats Vouched text now) ro)
                | inr n ↦ rw n (Ok-restore_file floats Vouched (sanctioned_text w.history) r.1 ro)
              ])
      ]

  propose_edit-Ok :
      (limits : Limits) (ok : Bool) (now : Real) (text : Text) (w : World floats)
      → WorldOk floats Vouched w
      → WorldOk floats Vouched (propose_edit floats limits ok now text w)
  unfolding propose_edit
  propose_edit-Ok limits ok now text w wo =
      let r = load_slot floats ok w in
      let ro = Ok-load_slot floats Vouched ok w wo in
      elim (Option-cases r.0) [
        | inr p ↦ rw (propose_edit, p.1) ro
        | inl e ↦
            rw (propose_edit, e)
              (Ok-save_slot floats Vouched (make_external_slot floats text now) r.1
                (external-Ok floats Vouched text now) ro)
      ]

  respond-Ok :
      (limits : Limits) (ok : Bool) (now : Real) (w : World floats) (a : Action)
      → WorldOk floats Vouched w
      → WorldOk floats Vouched (respond floats limits ok now w a).1
  unfolding respond
  respond-Ok limits ok now w in_sync wo = wo
  respond-Ok limits ok now w already_logged wo =
      complete_edit-Ok limits ok now (or_empty w.file) w wo
  respond-Ok limits false now w crash_repair wo = wo
  respond-Ok limits true now w crash_repair wo =
      let sanctioned = sanctioned_text w.history in
      Ok-restore_file floats Vouched sanctioned _
        (Ok-log_line floats Vouched (evo_repair sanctioned) w refl wo)
  respond-Ok limits false now w new_edit wo = wo
  respond-Ok limits true now w new_edit wo =
      let text = or_empty w.file in
      elim (Bool-cases (checks floats limits text)) [
        | inl y ↦ rw y (
            propose_edit-Ok limits true now text _
              (Ok-log_line floats Vouched (external_edit (some text)) w refl wo))
        | inr n ↦ rw n (
            Ok-restore_file floats Vouched (sanctioned_text w.history) _
              (Ok-log_line floats Vouched (external_edit none) w refl wo))
      ]

  pub doll-waits : (s : SlotStatus) → waits_for_doll s ≡ true → s ≡ awaiting_doll
  doll-waits s e = ground (arith, e)

  skeptic-waits : (s : SlotStatus) → waits_for_doll s ≡ false → s ≡ awaiting_skeptic
  skeptic-waits s e = ground (arith, e)

  pub surface_or_expire-Ok :
      (ok : Bool) (max : ℕ) (age now : Real) (w : World floats)
      → WorldOk floats Vouched w
      → WorldOk floats Vouched (surface_or_expire floats ok max age now w).1
  unfolding surface_or_expire
  surface_or_expire-Ok ok max age now w wo =
      let r = load_slot floats ok w in
      let ro = Ok-load_slot floats Vouched ok w wo in
      elim (Option-cases r.0) [
        | inl e ↦ rw (surface_or_expire, e) ro
        | inr (s, e) ↦
            rw (surface_or_expire, e)
              (elim (Bool-cases (waits_for_doll s.status)) [
                | inl y ↦ rw y (
                    surface-Ok floats Vouched ok max age now s r.1
                      (Ok-loaded floats Vouched ok w s wo e) (doll-waits s.status y) ro)
                | inr n ↦ rw n ro
              ])
      ]

  -- What a verdict that passes says of the slot that it is on.
  abbrev pub PassVouched : Bool → Verdict → World floats → Type 0
  PassVouched ok verdict w =
      (s : PendingSlot floats)
      → (load_slot floats ok w).0 ≡ some s
      → verdict ≡ Review.passed
      → Vouched s.candidate

  pub reverdict_once-Ok :
      (ok : Bool) (verdict : Verdict) (now : Real) (w : World floats)
      → PassVouched ok verdict w
      → WorldOk floats Vouched w
      → WorldOk floats Vouched (reverdict_once floats ok verdict now w).1
  unfolding reverdict_once
  reverdict_once-Ok ok verdict now w v wo =
      let r = load_slot floats ok w in
      let ro = Ok-load_slot floats Vouched ok w wo in
      elim (Option-cases r.0) [
        | inl e ↦ rw (reverdict_once, e) ro
        | inr (s, e) ↦
            rw (reverdict_once, e)
              (elim (Bool-cases (waits_for_doll s.status)) [
                | inl y ↦ rw y ro
                | inr n ↦ rw n (
                    judge-Ok floats Vouched ok verdict now s r.1
                      (Ok-loaded floats Vouched ok w s wo e) (skeptic-waits s.status n) (v s e) ro)
              ])
      ]

  pub process_tripwire-Ok :
      (limits : Limits) (ok : Bool) (now : Real) (w : World floats)
      → WorldOk floats Vouched w
      → WorldOk floats Vouched (process_tripwire floats limits ok now w).1
  unfolding process_tripwire
  process_tripwire-Ok limits ok now w wo = respond-Ok limits ok now w _ wo
