-- ===== src/Services/Streaks.antt =====
-- When `_supervise` gives a service up, and how long it waits.
use doll_os.Prelude.Floats.{Floats}
use doll_os.Prelude.{
  ℕ, zero, suc, ◌+◌, ◌≤◌, ◌≡◌, refl, ap, ◌∙◌, ◌≢◌, ◌⊎◌, false, none, List, [], ◌∷◌, ◌++◌, arith,
  All, Bool-cases, inl, inr, length,
}
use doll_os.Services.{ServiceState, Round, max_consecutive, is_clean, healthy, counted, supervise}
use doll_os.Services.Rounds.{resting, spawn-stopping, supervise-again, supervise-clean}

module _ (floats : Floats) where
  abbrev pub Rounds : Type 0
  Rounds = List (Round floats)

  -- An end that is no clean exit, and one that comes before the service counts as healthy.
  abbrev pub IsCrash : Round floats → Type 0
  IsCrash r = is_clean r.rc ≡ false

  abbrev pub IsQuick : Round floats → Type 0
  IsQuick r = (is_clean r.rc ≡ false) × (healthy floats r.uptime ≡ false)

  -- The rounds begin with so many quick crashes.
  record Burst (n : ℕ) (rounds : Rounds) : Type 0 where
    pub quick : Rounds
    pub after : Rounds
    pub split : rounds ≡ quick ++ after
    pub size : length quick ≡ n
    pub all_quick : All IsQuick quick

  -- Somewhere five quick crashes follow on a crash.
  pub record Streak (rounds : Rounds) : Type 0 where
    pub before : Rounds
    pub first : Round floats
    pub quick : Rounds
    pub after : Rounds
    pub split : rounds ≡ before ++ (first ∷ (quick ++ after))
    pub size : length quick ≡ max_consecutive
    pub crashed_first : IsCrash first
    pub all_quick : All IsQuick quick

  Streak-later : {r : Round floats} {rounds : Rounds} → Streak rounds → Streak (r ∷ rounds)
  Streak-later {r} {rounds} k = record {
    before = r ∷ k.before;
    first = k.first;
    quick = k.quick;
    after = k.after;
    split = ap (λ t. r ∷ t) k.split;
    size = k.size;
    crashed_first = k.crashed_first;
    all_quick = k.all_quick;
  }

  Burst-behind :
      {r : Round floats} {rounds : Rounds}
      → IsCrash r
      → Burst max_consecutive rounds
      → Streak (r ∷ rounds)
  Burst-behind {r} {rounds} c b = record {
    before = [];
    first = r;
    quick = b.quick;
    after = b.after;
    split = ap (λ t. r ∷ t) b.split;
    size = b.size;
    crashed_first = c;
    all_quick = b.all_quick;
  }

  longer :
      {n : ℕ} {r : Round floats} {rounds : Rounds}
      → IsQuick r
      → Burst n rounds
      → Burst (suc n) (r ∷ rounds)
  longer {n} {r} {rounds} q b = record {
    quick = r ∷ b.quick;
    after = b.after;
    split = ap (λ t. r ∷ t) b.split;
    size = ap suc b.size;
    all_quick = (q, b.all_quick);
  }

  rest_after_healthy :
      {r : Round floats} {rounds : Rounds}
      → IsCrash r
      → Streak rounds ⊎ Burst max_consecutive rounds
      → Streak (r ∷ rounds)
  rest_after_healthy c (inl k) = Streak-later k
  rest_after_healthy c (inr b) = Burst-behind c b

  rest_after_quick :
      {n : ℕ} {r : Round floats} {rounds : Rounds}
      → IsQuick r
      → Streak rounds ⊎ Burst n rounds
      → Streak (r ∷ rounds) ⊎ Burst (suc n) (r ∷ rounds)
  rest_after_quick q (inl k) = inl (Streak-later k)
  rest_after_quick q (inr b) = inr (longer q b)

  supervise-nil : (st : ServiceState) → (supervise floats [] st).notice ≡ none
  unfolding supervise
  supervise-nil st = refl

  nil-Burst : (rounds : Rounds) → Burst 0 rounds
  nil-Burst rounds = record {
    quick = [];
    after = rounds;
    split = refl;
    size = refl;
    all_quick = tt;
  }

  -- A loop that sleeps after a crash goes on to give up.
  goes_on :
      (n : ℕ) (r : Round floats) (rounds : Rounds) (st : ServiceState)
      → st.stopping ≡ false
      → IsCrash r
      → counted floats (healthy floats r.uptime) st.consecutive_failures ≡ n
      → n ≤ max_consecutive
      → (supervise floats (r ∷ rounds) st).notice
        ≡ (supervise floats rounds (resting floats n r st)).notice
  goes_on n r rounds st s c e l =
      ap (λ w. w.notice) (supervise-again floats n r rounds st s c e (ground arith))

  -- `n` failures and `m` more make the six at which the loop gives up.
  Streak-or_Burst :
      (rounds : Rounds) (m n : ℕ) (st : ServiceState)
      → n + suc m ≡ suc max_consecutive
      → st.stopping ≡ false
      → st.consecutive_failures ≡ n
      → (supervise floats rounds st).notice ≢ none
      → Streak rounds ⊎ Burst (suc m) rounds
  Streak-or_Burst [] m n st e s f h = absurd (h (supervise-nil st))
  Streak-or_Burst (r ∷ rounds) m n st e s f h = elim (Bool-cases (is_clean r.rc)) [
    | inl y ↦ absurd (h (ap (λ w. w.notice) (supervise-clean floats r rounds st s y)))
    | inr c ↦ elim (Bool-cases (healthy floats r.uptime)) [
      | inl y ↦
          let again =
            goes_on 1 r rounds st s c (ap (λ b. counted floats b st.consecutive_failures) y)
              (omega arith) in
          inl (
            rest_after_healthy c (
              Streak-or_Burst rounds 4 1 (resting floats 1 r st) refl
                (spawn-stopping floats r st ∙ s) refl (λ o. h (again ∙ o))))
      | inr q ↦ quick_case m n e f h c q (λ k l o.
          Streak-or_Burst rounds k (suc n) (resting floats (suc n) r st) l
            (spawn-stopping floats r st ∙ s) refl o)
    ]
  ]
    where
      quick_case :
          (k j : ℕ)
          → j + suc k ≡ suc max_consecutive
          → st.consecutive_failures ≡ j
          → (supervise floats (r ∷ rounds) st).notice ≢ none
          → IsCrash r
          → healthy floats r.uptime ≡ false
          → ((i : ℕ)
              → suc j + suc i ≡ suc max_consecutive
              → (supervise floats rounds (resting floats (suc j) r st)).notice ≢ none
              → Streak rounds ⊎ Burst (suc i) rounds)
          → Streak (r ∷ rounds) ⊎ Burst (suc k) (r ∷ rounds)
      quick_case zero j d g o c q ih = inr (longer (c, q) (nil-Burst rounds))
      quick_case (suc k) j d g o c q ih =
          let again =
            goes_on (suc j) r rounds st s c
              (ap (λ b. counted floats b st.consecutive_failures) q ∙ omega (arith, g))
              (omega (arith, d)) in
          rest_after_quick (c, q) (ih k (omega (arith, d)) (λ x. o (again ∙ x)))

  Streak-of : (rounds : Rounds) → Streak rounds ⊎ Burst (suc max_consecutive) rounds → Streak rounds
  Streak-of rounds (inl k) = k
  Streak-of rounds (inr b) = from_burst b.quick b.split b.size b.all_quick
    where
      from_burst :
          (quick : Rounds)
          → rounds ≡ quick ++ b.after
          → length quick ≡ suc max_consecutive
          → All IsQuick quick
          → Streak rounds
      from_burst [] e l a = absurd (omega (arith, l))
      from_burst (r ∷ quick) e l a = record {
        before = [];
        first = r;
        quick = quick;
        after = b.after;
        split = e;
        size = omega (arith, l);
        crashed_first = a.0.0;
        all_quick = a.1;
      }

  -- A service that starts with no failures is given up only where it crashes and then crashes five
  -- times more, each time before it counts as healthy.
  pub gives_up-Streak :
      (rounds : Rounds) (st : ServiceState)
      → st.stopping ≡ false
      → st.consecutive_failures ≡ 0
      → (supervise floats rounds st).notice ≢ none
      → Streak rounds
  gives_up-Streak rounds st s f h = Streak-of rounds (Streak-or_Burst rounds 5 0 st refl s f h)
