-- ===== src/Evolution/Expiry.antt =====
-- A candidate that Doll leaves alone goes away.
use doll_os.Prelude.{
  ◌+◌, ◌≤◌, ◌≡◌, refl, sym, subst, true, false, List, [], ◌∷◌, map, length, All, leb, arith,
  Bool-cases, inl, inr, ◌⊎◌, ◌<◌,
}
use doll_os.Prelude.Floats.{Floats}
use doll_os.Evolution.Texts.{Language}
use doll_os.Evolution.Slot.{PendingSlot, awaiting_doll, surfaced_slot}
use doll_os.Evolution.Store.{
  World, SlotFile, missing, stored, sanctioned_text, load_slot, load_from, save_slot, clear_slot,
  give_back, same_as,
}
use doll_os.Evolution.Review.{
  Shown, raised, surface, surface_or_expire, expired, drop_slot, hidden, shown,
}
use doll_os.Evolution.Moves.{Settings, reflected, set_surfaced, move, moves}
use doll_os.Evolution.Sanction.{slot-restore_file}

module _ (floats : Floats) (language : Language) (settings : Settings floats.Real) where
  open floats use {Real, number, sub, div, at_least}

  -- The candidate is old enough to expire.
  abbrev pub Old : Real → Real → Type 0
  Old created now = at_least (div (sub now created) (number 86400)) settings.min_age_days ≡ true

  slot-set_surfaced :
      (r : Shown × World floats) → (set_surfaced floats language settings r).slot ≡ r.1.slot
  slot-set_surfaced (hidden, w) = refl
  slot-set_surfaced (shown, w) = refl
  slot-set_surfaced (raised, w) = refl

  -- What a slot is behind a reflection: gone, or surfaced once more.
  abbrev After : PendingSlot floats → SlotFile (PendingSlot floats) → Type 0
  After s f =
      (f ≡ missing)
      ⊎ ((leb settings.max_surfacings s.surfaced_count ≡ false)
          × (f ≡ stored (surfaced_slot floats s)))

  surface-After :
      (now : Real) (s : PendingSlot floats) (w : World floats)
      → Old s.created_ts now
      → After s (surface floats true settings.max_surfacings settings.min_age_days now s w).1.slot
  unfolding surface expired drop_slot give_back clear_slot save_slot
  surface-After now s w old =
      let sanctioned = sanctioned_text w.history in
      elim (Bool-cases (same_as sanctioned s.candidate)) [
        | inl y ↦ rw y (inl refl)
        | inr n ↦ rw n (elim (Bool-cases (leb settings.max_surfacings s.surfaced_count)) [
          | inl y ↦ rw (y, old) (inl (slot-restore_file floats (λ t. Unit) sanctioned _))
          | inr m ↦ rw m (inr (refl, refl))
        ])
      ]

  surface_or_expire-waiting :
      (now : Real) (s : PendingSlot floats) (w : World floats)
      → w.slot ≡ stored s
      → s.status ≡ awaiting_doll
      → surface_or_expire floats true settings.max_surfacings settings.min_age_days now w
        ≡ surface floats true settings.max_surfacings settings.min_age_days now s w
  unfolding surface_or_expire load_slot
  surface_or_expire-waiting now s w e d = simp (surface_or_expire, e, load_from, d) refl

  reflected-After :
      (now : Real) (s : PendingSlot floats) (w : World floats)
      → w.slot ≡ stored s
      → s.status ≡ awaiting_doll
      → Old s.created_ts now
      → After s (move floats language settings (reflected true now) w).slot
  unfolding move
  reflected-After now s w e d old =
      rw (surface_or_expire-waiting now s w e d)
        (subst (After s) (sym (slot-set_surfaced _)) (surface-After now s w old))

  reflected-missing :
      (nows : List Real) (w : World floats)
      → w.slot ≡ missing
      → (moves floats language settings (map (reflected true) nows) w).slot ≡ missing
  unfolding moves move surface_or_expire load_slot
  reflected-missing [] w e = e
  reflected-missing (now ∷ nows) w e =
      reflected-missing nows (move floats language settings (reflected true now) w)
        (rw (e, load_from) refl)

  -- A candidate that waits for Doll and is old enough, in as many reflections as it may be surfaced
  -- and one more, of which no append fails and between which nothing else happens: it is gone.
  pub reflected-expires :
      (nows : List Real) (s : PendingSlot floats) (w : World floats)
      → w.slot ≡ stored s
      → s.status ≡ awaiting_doll
      → All (Old s.created_ts) nows
      → settings.max_surfacings + 1 ≤ s.surfaced_count + length nows
      → 0 < length nows
      → (moves floats language settings (map (reflected true) nows) w).slot ≡ missing
  unfolding moves surfaced_slot
  reflected-expires [] s w e d old h p = absurd (omega (arith, p))
  reflected-expires (now ∷ nows) s w e d (o, old) h p = elim (reflected-After now s w e d o) [
    | inl gone ↦ reflected-missing nows (move floats language settings (reflected true now) w) gone
    | inr (m, f) ↦
        reflected-expires nows (surfaced_slot floats s)
          (move floats language settings (reflected true now) w) f d old (omega (arith, h))
          (ground (arith, m, h))
  ]
