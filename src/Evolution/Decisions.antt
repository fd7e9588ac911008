-- ===== src/Evolution/Decisions.antt =====
-- Doll's decision keeps the invariant: she adopts only the candidate of a slot that waits for her.
use doll_os.Prelude.{
  ◌≡◌, refl, subst, not, ◌||◌, Option, some, leb, Bool-cases, Option-cases, inl, inr, some_inj,
}
use doll_os.Prelude.Floats.{Floats}
use doll_os.Evolution.Texts.{
  Text, Language, mechanical_checks, strip_surfacing_markers, echo_equivalent,
}
use doll_os.Evolution.Slot.{
  adopt, reject, PendingSlot, SlotKind, keeper, counter, external, waits_for_doll, awaiting_doll,
  Outcome, to_counter, counter_round_cap,
}
use doll_os.Evolution.Store.{
  World, evo_adopt, evo_error, evo_counter, evo_reject, sanctioned_text, load_slot, log_line,
}
use doll_os.Evolution.Tripwire.{Limits}
use doll_os.Evolution.Revision.{
  Disk, Decision, adopting, rejecting, self_revision, decide_slot, reject_slot, adopt_slot,
  counter_slot, anchor, latch, echoes, is_empty,
}
use doll_os.Evolution.Sanction.{
  SlotOk, WorldOk, Ok-load_slot, Ok-loaded, Ok-save_slot, Ok-log_line, Ok-clear_slot,
  Ok-restore_file,
}
use doll_os.Evolution.Sound.{doll-waits}
use doll_os.Evolution.Transitions.{counter-Ok}

module _ (floats : Floats) (language : Language) (Vouched : Text → Type 0) where
  open floats use {Real}

  abbrev Good : World floats → Type 0
  Good = WorldOk floats Vouched

  anchor-Ok :
      (limits : Limits) (base top now : Real) (o : Outcome) (k : SlotKind) (w : World floats)
      → Good w
      → Good (anchor floats language limits base top now o k w)
  unfolding anchor
  anchor-Ok limits base top now o keeper w wo = record { slot = wo.slot; adopted = wo.adopted }
  anchor-Ok limits base top now o counter w wo = record { slot = wo.slot; adopted = wo.adopted }
  anchor-Ok limits base top now o external w wo = record { slot = wo.slot; adopted = wo.adopted }

  latch-Ok : (limits : Limits) (w : World floats) → Good w → Good (latch floats language limits w)
  latch-Ok limits w wo = record { slot = wo.slot; adopted = wo.adopted }

  adopt-Ok :
      (text : Text) (old : Option Text) (w : World floats)
      → Vouched text
      → Good w
      → Good (log_line floats (evo_adopt text old) w)
  unfolding log_line sanctioned_text
  adopt-Ok text old w v wo = record {
    slot = wo.slot;
    adopted = λ t e. subst Vouched (some_inj e) v;
  }

  file-Ok : (t : Option Text) (w : World floats) → Good w → Good (record w { file = t })
  file-Ok t w wo = record { slot = wo.slot; adopted = wo.adopted }

  reject_slot-Ok :
      (limits : Limits) (disk : Disk) (base top now : Real) (s : PendingSlot floats)
      (w : World floats)
      → Good w
      → Good (reject_slot floats language limits disk base top now s w).1
  unfolding reject_slot
  reject_slot-Ok limits disk base top now s w wo = elim (Bool-cases disk.append_ok) [
    | inl y ↦
        rw (reject_slot, y)
          (latch-Ok limits _ (
            anchor-Ok limits base top now reject s.kind _ (
              Ok-restore_file floats Vouched (sanctioned_text w.history) _ (
                Ok-clear_slot floats Vouched _
                  (Ok-log_line floats Vouched (evo_reject s.candidate) w refl wo)))))
    | inr n ↦ rw (reject_slot, n) wo
  ]

  adopt_slot-Ok :
      (limits : Limits) (disk : Disk) (base top now : Real) (s : PendingSlot floats)
      (w : World floats)
      → Vouched s.candidate
      → Good w
      → Good (adopt_slot floats language limits disk base top now s w).1
  unfolding adopt_slot
  adopt_slot-Ok limits disk base top now s w v wo =
      let logged = adopt-Ok s.candidate (sanctioned_text w.history) w v wo in
      elim (Bool-cases (not disk.append_ok)) [
        | inl y ↦ rw (adopt_slot, y) wo
        | inr n ↦
            rw (adopt_slot, n)
              (elim (Bool-cases (disk.write_ok || disk.rewrite_ok)) [
                | inl y ↦ rw y (
                    latch-Ok limits _ (
                      anchor-Ok limits base top now adopt s.kind _
                        (Ok-clear_slot floats Vouched _ (file-Ok (some s.candidate) _ logged))))
                | inr m ↦ rw m (elim (Bool-cases disk.error_ok) [
                  | inl y ↦ rw y (
                      latch-Ok limits _ (
                        anchor-Ok limits base top now adopt s.kind _ (
                          Ok-clear_slot floats Vouched _
                            (Ok-log_line floats Vouched evo_error _ refl logged))))
                  | inr m ↦ rw m logged
                ])
              ])
      ]

  counter_slot-Ok :
      (limits : Limits) (disk : Disk) (text : Text) (s : PendingSlot floats) (w : World floats)
      → SlotOk floats Vouched s
      → s.status ≡ awaiting_doll
      → Good w
      → Good (counter_slot floats language limits disk text s w).1
  unfolding counter_slot
  counter_slot-Ok limits disk text s w so d wo =
      elim (Bool-cases (leb counter_round_cap s.counter_round)) [
        | inl y ↦ rw (counter_slot, y) wo
        | inr n ↦
            rw (counter_slot, n)
              (elim (Option-cases
                (mechanical_checks limits.floor limits.cap limits.enforcement text)) [
                  | inr p ↦ rw p.1 wo
                  | inl e ↦ rw e (elim (Bool-cases disk.append_ok) [
                    | inl y ↦ rw y (
                        latch-Ok limits _ (
                          Ok-save_slot floats Vouched (to_counter floats text s) _
                            (counter-Ok floats Vouched text s so d n)
                            (Ok-log_line floats Vouched
                              (evo_counter text (to_counter floats text s).counter_round) w refl
                              wo)))
                    | inr m ↦ rw m wo
                  ])
                ])
      ]

  decide_slot-Ok :
      (limits : Limits) (disk : Disk) (base top now : Real) (decision : Decision) (text : Text)
      (s : PendingSlot floats) (w : World floats)
      → SlotOk floats Vouched s
      → s.status ≡ awaiting_doll
      → Good w
      → Good (decide_slot floats language limits disk base top now decision text s w).1
  unfolding decide_slot
  decide_slot-Ok limits disk base top now rejecting text s w so d wo =
      reject_slot-Ok limits disk base top now s w wo
  decide_slot-Ok limits disk base top now adopting text s w so d wo =
      let proposed = strip_surfacing_markers language text in
      let sanctioned = sanctioned_text w.history in
      elim (Bool-cases (
        is_empty floats language limits proposed
        || echo_equivalent language proposed s.candidate)) [
          | inl y ↦ rw y (elim (Bool-cases (echoes floats language limits s.candidate sanctioned)) [
            | inl y ↦ rw y wo
            | inr n ↦ rw n (adopt_slot-Ok limits disk base top now s w (so.reviewed d) wo)
          ])
          | inr n ↦ rw n (elim (Bool-cases (echoes floats language limits proposed sanctioned)) [
            | inl y ↦ rw y wo
            | inr n ↦ rw n (counter_slot-Ok limits disk proposed s w so d wo)
          ])
        ]

  pub self_revision-Ok :
      (limits : Limits) (disk : Disk) (base top now : Real) (decision : Decision) (text : Text)
      (w : World floats)
      → Good w
      → Good (self_revision floats language limits disk base top now decision text w).1
  unfolding self_revision
  self_revision-Ok limits disk base top now decision text w wo =
      let r = load_slot floats disk.append_ok w in
      let ro = Ok-load_slot floats Vouched disk.append_ok w wo in
      elim (Bool-cases w.latched) [
        | inl y ↦ simp (self_revision, y) wo
        | inr n ↦
            simp (self_revision, n)
              (elim (Option-cases r.0) [
                | inl e ↦ rw e ro
                | inr (s, e) ↦ rw e (elim (Bool-cases (waits_for_doll s.status)) [
                  | inr n ↦ rw n ro
                  | inl y ↦ rw y (elim (Bool-cases w.candidate_surfaced) [
                    | inr n ↦ simp n ro
                    | inl z ↦ simp z (
                        decide_slot-Ok limits disk base top now decision text s r.1
                          (Ok-loaded floats Vouched disk.append_ok w s wo e)
                          (doll-waits floats Vouched s.status y) ro)
                  ])
                ])
              ])
      ]
