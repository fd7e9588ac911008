-- ===== src/Evolution/Outcomes.antt =====
-- A decision whose append fails changes nothing.
use doll_os.Prelude.{◌≡◌, refl, false, ◌||◌, Option, leb, Bool-cases, Option-cases, inl, inr}
use doll_os.Prelude.Floats.{Floats}
use doll_os.Evolution.Texts.{
  Text, Language, mechanical_checks, strip_surfacing_markers, echo_equivalent,
}
use doll_os.Evolution.Slot.{PendingSlot, counter_round_cap, waits_for_doll}
use doll_os.Evolution.Store.{World, stored, sanctioned_text, load_slot, load_from}
use doll_os.Evolution.Tripwire.{Limits}
use doll_os.Evolution.Revision.{
  Disk, Decision, adopting, rejecting, self_revision, decide_slot, reject_slot, adopt_slot,
  counter_slot, echoes, is_empty,
}

module _ (floats : Floats) (language : Language) (limits : Limits)
    (base top now : floats.Real) where
  open floats use {Real}

  adopt_slot-failed :
      (disk : Disk) (s : PendingSlot floats) (w : World floats)
      → disk.append_ok ≡ false
      → (adopt_slot floats language limits disk base top now s w).1 ≡ w
  unfolding adopt_slot
  adopt_slot-failed disk s w e = simp e refl

  counter_slot-failed :
      (disk : Disk) (text : Text) (s : PendingSlot floats) (w : World floats)
      → disk.append_ok ≡ false
      → (counter_slot floats language limits disk text s w).1 ≡ w
  unfolding counter_slot
  counter_slot-failed disk text s w e = elim (Bool-cases (leb counter_round_cap s.counter_round)) [
    | inl y ↦ rw y refl
    | inr n ↦
        rw n
          (elim (Option-cases (mechanical_checks limits.floor limits.cap limits.enforcement text)) [
            | inl z ↦ rw z (simp e refl)
            | inr p ↦ rw p.1 refl
          ])
  ]

  decide_slot-failed :
      (disk : Disk) (decision : Decision) (text : Text) (s : PendingSlot floats) (w : World floats)
      → disk.append_ok ≡ false
      → (decide_slot floats language limits disk base top now decision text s w).1 ≡ w
  unfolding decide_slot reject_slot
  decide_slot-failed disk rejecting text s w e = rw e refl
  decide_slot-failed disk adopting text s w e =
      elim (Bool-cases (
        is_empty floats language limits proposed
        || echo_equivalent language proposed s.candidate)) [
          | inl y ↦ rw y (elim (Bool-cases (echoes floats language limits s.candidate sanctioned)) [
            | inl z ↦ rw z refl
            | inr n ↦ rw n (adopt_slot-failed disk s w e)
          ])
          | inr n ↦ rw n (elim (Bool-cases (echoes floats language limits proposed sanctioned)) [
            | inl z ↦ rw z refl
            | inr m ↦ rw m (counter_slot-failed disk proposed s w e)
          ])
        ]
    where
      proposed : Text
      proposed = strip_surfacing_markers language text

      sanctioned : Option Text
      sanctioned = sanctioned_text w.history

  -- If the append of the decision fails, a pending slot, the history, the file and the bookkeeping
  -- are as they were.
  pub self_revision-failed :
      (disk : Disk) (decision : Decision) (text : Text) (s : PendingSlot floats) (w : World floats)
      → disk.append_ok ≡ false
      → w.slot ≡ stored s
      → (self_revision floats language limits disk base top now decision text w).1 ≡ w
  unfolding self_revision load_slot
  self_revision-failed disk decision text s w e st =
      simp (self_revision, st, load_from)
        (elim (Bool-cases w.latched) [
          | inl y ↦ simp y refl
          | inr n ↦ simp n (elim (Bool-cases (waits_for_doll s.status)) [
            | inr m ↦ simp m refl
            | inl y ↦ simp y (elim (Bool-cases w.candidate_surfaced) [
              | inr m ↦ simp m refl
              | inl z ↦ simp z (decide_slot-failed disk decision text s w e)
            ])
          ])
        ])
