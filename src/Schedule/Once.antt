-- ===== src/Schedule/Once.antt =====
-- An entry's moment comes exactly once.
use doll_os.Prelude.{
  ℕ, ◌+◌, ◌≤◌, ◌≡◌, refl, ap, ◌∙◌, Bool, true, false, not, ◌&&◌, ◌||◌, Option, List, [], ◌∷◌, ◌++◌,
  eqb, ltb, leb, map, any, All, if◌then◌else◌, arith, Bool-cases, inl, inr, eqb_iff, subst,
}
use doll_os.Schedule.{
  ScheduleEntry, one_minute, has_fired, is_due, due_entries, Poll, entries_of, schedule_runner,
}

abbrev pub has_time : ℕ → List ScheduleEntry → Bool
has_time t es = any (λ e. eqb t e.time) es

-- How many polls fire an entry of that time.
unfoldable pub times_fired : ℕ → List (List ScheduleEntry) → ℕ
times_fired t [] = 0
times_fired t (due ∷ rest) = if has_time t due then times_fired t rest + 1 else times_fired t rest

-- Each poll comes at most a minute behind the one before.
abbrev pub Close : ℕ → List Poll → Type 0
Close now [] = Unit
Close now ((later, schedule) ∷ polls) = (later ≤ now + one_minute) × Close later polls

is_due-same :
    (t now : ℕ) (fired : List ℕ) (e : ScheduleEntry)
    → eqb t e.time ≡ true
    → is_due now fired e
      ≡ (not (has_fired t fired) && not (ltb now t) && not (ltb (t + one_minute) now))
unfolding is_due
is_due-same t now fired e h =
    subst
      (λ u.
        (not (has_fired u fired) && not (ltb now u) && not (ltb (u + one_minute) now))
        ≡ (not (has_fired t fired) && not (ltb now t) && not (ltb (t + one_minute) now)))
      ((eqb_iff t e.time).0 h) refl

has_time-due :
    (t now : ℕ) (fired : List ℕ) (es : List ScheduleEntry)
    → has_time t (due_entries es now fired) ≡ (
        has_time t es
        && (not (has_fired t fired) && not (ltb now t) && not (ltb (t + one_minute) now)))
unfolding due_entries is_due
has_time-due t now fired [] = refl
has_time-due t now fired (e ∷ es) =
    let known = has_time-due t now fired es in
    let same = is_due-same t now fired e in
    elim (Bool-cases (is_due now fired e)) [
      | inl d ↦ rw d (ground (arith, known, same, d))
      | inr d ↦ rw d (ground (arith, known, same, d))
    ]

has_fired-append :
    (t : ℕ) (fired : List ℕ) (es : List ScheduleEntry)
    → has_fired t (fired ++ map (λ (e : ScheduleEntry). e.time) es)
      ≡ (has_fired t fired || has_time t es)
unfolding has_fired
has_fired-append t [] [] = refl
has_fired-append t [] (e ∷ es) = ground (arith, has_fired-append t [] es)
has_fired-append t (u ∷ fired) es = ground (arith, has_fired-append t fired es)

not_again :
    (t now : ℕ) (a b : Bool)
    → b ≡ true
    → (a && (not b && not (ltb now t) && not (ltb (t + one_minute) now))) ≡ false
not_again t now a b h = ground (arith, h)

-- A time that has fired does not fire again.
fired-never :
    (t : ℕ) (polls : List Poll) (fired : List ℕ)
    → has_fired t fired ≡ true
    → times_fired t (schedule_runner polls fired) ≡ 0
unfolding times_fired schedule_runner
fired-never t [] fired h = refl
fired-never t ((now, schedule) ∷ polls) fired h =
    let due = due_entries (entries_of schedule) now fired in
    let quiet =
      has_time-due t now fired (entries_of schedule)
      ∙ not_again t now (has_time t (entries_of schedule)) (has_fired t fired) h in
    rw quiet (
      fired-never t polls (fired ++ map (λ (e : ScheduleEntry). e.time) due)
        (has_fired-append t fired due ∙ rw h refl))

is_now :
    (t now : ℕ) (a b : Bool)
    → a ≡ true
    → b ≡ false
    → ltb now t ≡ false
    → now ≤ t + one_minute
    → (a && (not b && not (ltb now t) && not (ltb (t + one_minute) now))) ≡ true
is_now t now a b h f late near = ground (arith, h, f, late, near)

is_early :
    (t now : ℕ) (a b : Bool)
    → ltb now t ≡ true
    → (a && (not b && not (ltb now t) && not (ltb (t + one_minute) now))) ≡ false
is_early t now a b early = ground (arith, early)

fires-now :
    (t : ℕ) (now : ℕ) (schedule : Option (List ScheduleEntry)) (polls : List Poll) (fired : List ℕ)
    → has_fired t fired ≡ false
    → has_time t (entries_of schedule) ≡ true
    → now ≤ t + one_minute
    → ltb now t ≡ false
    → times_fired t (schedule_runner ((now, schedule) ∷ polls) fired) ≡ 1
unfolding times_fired schedule_runner
fires-now t now schedule polls fired f h near late =
    let due = due_entries (entries_of schedule) now fired in
    let fires =
      has_time-due t now fired (entries_of schedule)
      ∙ is_now t now (has_time t (entries_of schedule)) (has_fired t fired) h f late near in
    rw fires (
      ap (λ n. n + 1)
        (fired-never t polls (fired ++ map (λ (e : ScheduleEntry). e.time) due)
          (has_fired-append t fired due ∙ rw (f, fires) refl)))

-- Whatever the schedule says at each poll besides: an entry whose time has not fired yet, which every
-- poll of the day reads, is fired by exactly one poll, if the first poll comes at most a minute behind
-- it, each other poll at most a minute behind the one before, and one poll not before it.
pub fires-once :
    (t : ℕ) (now : ℕ) (schedule : Option (List ScheduleEntry)) (polls : List Poll) (fired : List ℕ)
    → has_fired t fired ≡ false
    → All (λ (p : Poll). has_time t (entries_of p.1) ≡ true) ((now, schedule) ∷ polls)
    → now ≤ t + one_minute
    → Close now polls
    → any (λ (p : Poll). leb t p.0) ((now, schedule) ∷ polls) ≡ true
    → times_fired t (schedule_runner ((now, schedule) ∷ polls) fired) ≡ 1
unfolding times_fired schedule_runner
fires-once t now schedule [] fired f (h, hs) near close reach = elim (Bool-cases (ltb now t)) [
  | inr late ↦ fires-now t now schedule [] fired f h near late
  | inl early ↦ absurd (ground (arith, reach, early))
]
fires-once t now schedule ((n, s) ∷ ps) fired f (h, hs) near (c, close) reach =
    elim (Bool-cases (ltb now t)) [
      | inr late ↦ fires-now t now schedule ((n, s) ∷ ps) fired f h near late
      | inl early ↦
          let due = due_entries (entries_of schedule) now fired in
          let quiet =
            has_time-due t now fired (entries_of schedule)
            ∙ is_early t now (has_time t (entries_of schedule)) (has_fired t fired) early in
          rw quiet (
            fires-once t n s ps (fired ++ map (λ (e : ScheduleEntry). e.time) due)
              (has_fired-append t fired due ∙ rw (f, quiet) refl) hs (ground (arith, c, early))
              close (ground (arith, reach, early)))
    ]
