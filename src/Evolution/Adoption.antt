-- ===== src/Evolution/Adoption.antt =====
-- An adoption is of the candidate that Doll was shown.
use doll_os.Prelude.{
  arith, ◌≡◌, refl, ap, Bool, true, false, ◌||◌, Option, some, leb, Bool-cases, Option-cases, inl,
  inr, some_inj,
}
use doll_os.Prelude.Floats.{Floats}
use doll_os.Evolution.Texts.{
  Text, Language, mechanical_checks, strip_surfacing_markers, echo_equivalent,
}
use doll_os.Evolution.Slot.{
  external, PendingSlot, SlotKind, counter_round_cap, waits_for_doll, awaiting_doll, adopt, keeper,
  counter,
}
use doll_os.Evolution.Store.{
  World, stored, missing, sanctioned_text, load_slot, load_from, clear_slot, log_line, latest_adopt,
  SlotFile, corrupt,
}
use doll_os.Evolution.Tripwire.{Limits}
use doll_os.Evolution.Revision.{
  adopted, Disk, Decision, adopting, rejecting, Answer, self_revision, decide_slot, reject_slot,
  adopt_slot, counter_slot, anchor, latch, echoes, is_empty,
}
use doll_os.Evolution.Sound.{doll-waits}

module _ (floats : Floats) (language : Language) (limits : Limits)
    (base top now : floats.Real) where
  open floats use {Real}

  -- An answer `adopted` goes with the candidate of `s` as the sanctioned text and in the file, no
  -- slot, and the latch.
  abbrev pub AdoptsCandidate : PendingSlot floats → Answer × World floats → Type 0
  AdoptsCandidate s r =
      r.0 ≡ adopted
      → (sanctioned_text r.1.history ≡ some s.candidate)
        × (r.1.file ≡ some s.candidate)
        × (r.1.slot ≡ missing)
        × (r.1.latched ≡ true)

  settled-adopted :
      (s : PendingSlot floats) (k : SlotKind) (w : World floats)
      → sanctioned_text w.history ≡ some s.candidate
      → w.file ≡ some s.candidate
      → AdoptsCandidate s (
        adopted,
        latch floats language limits
            (anchor floats language limits base top now adopt k (clear_slot floats w)),
      )
  unfolding clear_slot anchor
  settled-adopted s keeper w h f e = (h, f, refl, refl)
  settled-adopted s counter w h f e = (h, f, refl, refl)
  settled-adopted s external w h f e = (h, f, refl, refl)

  adopt_slot-adopted :
      (disk : Disk) (s : PendingSlot floats) (w : World floats)
      → AdoptsCandidate s (adopt_slot floats language limits disk base top now s w)
  unfolding adopt_slot sanctioned_text latest_adopt log_line
  adopt_slot-adopted disk s w = elim (Bool-cases disk.append_ok) [
    | inr n ↦ simp (adopt_slot, n) (λ e. absurd (ground (arith, e)))
    | inl y ↦
        simp (adopt_slot, y)
          (elim (Bool-cases (disk.write_ok || disk.rewrite_ok)) [
            | inl z ↦ rw z (settled-adopted s s.kind _ refl refl)
            | inr n ↦ rw n (elim (Bool-cases disk.error_ok) [
              | inl z ↦ simp z (λ e. absurd (ground (arith, e)))
              | inr z ↦ simp z (λ e. absurd (ground (arith, e)))
            ])
          ])
  ]

  counter_slot-adopted :
      (disk : Disk) (text : Text) (s : PendingSlot floats) (w : World floats)
      → AdoptsCandidate s (counter_slot floats language limits disk text s w)
  unfolding counter_slot
  counter_slot-adopted disk text s w = elim (Bool-cases (leb counter_round_cap s.counter_round)) [
    | inl y ↦ rw (counter_slot, y) (λ e. absurd (ground (arith, e)))
    | inr n ↦
        rw (counter_slot, n)
          (elim (Option-cases (mechanical_checks limits.floor limits.cap limits.enforcement text)) [
            | inl z ↦ rw z (elim (Bool-cases disk.append_ok) [
              | inl y ↦ simp y (λ e. absurd (ground (arith, e)))
              | inr y ↦ simp y (λ e. absurd (ground (arith, e)))
            ])
            | inr p ↦ rw p.1 (λ e. absurd (ground (arith, e)))
          ])
  ]

  decide_slot-adopted :
      (disk : Disk) (decision : Decision) (text : Text) (s : PendingSlot floats) (w : World floats)
      → AdoptsCandidate s (decide_slot floats language limits disk base top now decision text s w)
  unfolding decide_slot reject_slot
  decide_slot-adopted disk rejecting text s w = elim (Bool-cases disk.append_ok) [
    | inl y ↦ simp (decide_slot, y) (λ e. absurd (ground (arith, e)))
    | inr n ↦ simp (decide_slot, n) (λ e. absurd (ground (arith, e)))
  ]
  decide_slot-adopted disk adopting text s w =
      elim (Bool-cases (
        is_empty floats language limits proposed
        || echo_equivalent language proposed s.candidate)) [
          | inl y ↦
              rw (decide_slot, y)
                (elim (Bool-cases (echoes floats language limits s.candidate sanctioned)) [
                  | inl z ↦ rw z (λ e. absurd (ground (arith, e)))
                  | inr n ↦ rw n (adopt_slot-adopted disk s w)
                ])
          | inr n ↦
              rw (decide_slot, n)
                (elim (Bool-cases (echoes floats language limits proposed sanctioned)) [
                  | inl z ↦ rw z (λ e. absurd (ground (arith, e)))
                  | inr m ↦ rw m (counter_slot-adopted disk proposed s w)
                ])
        ]
    where
      proposed : Text
      proposed = strip_surfacing_markers language text

      sanctioned : Option Text
      sanctioned = sanctioned_text w.history

  load_from-stored :
      (ok : Bool) (f : SlotFile (PendingSlot floats)) (w : World floats) (s : PendingSlot floats)
      → (load_from floats ok w f).0 ≡ some s
      → f ≡ stored s
  unfolding load_from
  load_from-stored ok missing w s e = absurd (ground (arith, e))
  load_from-stored ok corrupt w s e = absurd (ground (arith, e))
  load_from-stored ok (stored t) w s e = ap stored (some_inj e)

  decide_slot-decision :
      (disk : Disk) (decision : Decision) (text : Text) (s : PendingSlot floats) (w : World floats)
      → (decide_slot floats language limits disk base top now decision text s w).0 ≡ adopted
      → decision ≡ adopting
  unfolding decide_slot reject_slot
  decide_slot-decision disk adopting text s w = λ e. refl
  decide_slot-decision disk rejecting text s w = elim (Bool-cases disk.append_ok) [
    | inl y ↦ simp (decide_slot, y) (λ e. absurd (ground (arith, e)))
    | inr n ↦ simp (decide_slot, n) (λ e. absurd (ground (arith, e)))
  ]

  -- The candidate of a slot that waited for Doll and that she was shown is adopted.
  abbrev pub AdoptsShown : Decision → World floats → Answer × World floats → Type 0
  AdoptsShown decision w r =
      (w.latched ≡ false)
      × (w.candidate_surfaced ≡ true)
      × (decision ≡ adopting)
      × (s : PendingSlot floats) × (w.slot ≡ stored s)
      × (s.status ≡ awaiting_doll)
      × (sanctioned_text r.1.history ≡ some s.candidate)
      × (r.1.file ≡ some s.candidate)
      × (r.1.slot ≡ missing)
      × (r.1.latched ≡ true)

  -- Where the answer is `adopted`: this turn surfaced a candidate and made no decision before, the
  -- candidate of the slot, which waited for Doll, is now the sanctioned text of the history and the
  -- contents of the file, the slot is gone, and no further decision counts this turn.
  pub self_revision-adopted :
      (disk : Disk) (decision : Decision) (text : Text) (w : World floats)
      → (self_revision floats language limits disk base top now decision text w).0 ≡ adopted
      → AdoptsShown decision w
          (self_revision floats language limits disk base top now decision text w)
  unfolding self_revision load_slot
  self_revision-adopted disk decision text w =
      let r = load_slot floats disk.append_ok w in
      elim (Bool-cases w.latched) [
        | inl y ↦ simp (self_revision, y) (λ e. absurd (ground (arith, e)))
        | inr l ↦
            simp (self_revision, l)
              (elim (Option-cases r.0) [
                | inl z ↦ rw z (λ e. absurd (ground (arith, e)))
                | inr (s, z) ↦ rw z (elim (Bool-cases (waits_for_doll s.status)) [
                  | inr n ↦ rw n (λ e. absurd (ground (arith, e)))
                  | inl d ↦ rw d (elim (Bool-cases w.candidate_surfaced) [
                    | inr n ↦ simp n (λ e. absurd (ground (arith, e)))
                    | inl c ↦ simp c (λ e.
                        let (h, f, g, k) = decide_slot-adopted disk decision text s _ e in
                        (
                          refl,
                          refl,
                          decide_slot-decision disk decision text s _ e,
                          s,
                          load_from-stored disk.append_ok w.slot w s z,
                          doll-waits floats (λ t. Unit) s.status d,
                          h,
                          f,
                          g,
                          k,
                        ))
                  ])
                ])
              ])
      ]
