-- ===== src/Services/Waits.antt =====
-- A crash loop is given up, and how long `_supervise` waits on the way.
use Prim.Native.Nat.{◌^◌}
use doll_os.Prelude.Floats.{Floats}
use doll_os.Prelude.{
  ℕ, zero, suc, ◌+◌, ◌≤◌, ◌<◌, ◌≡◌, refl, ap, ◌∙◌, ◌≢◌, Bool, true, false, none, [], ◌∷◌, ◌++◌,
  arith, ltb, All, Bool-cases, inl, inr, length,
}
use doll_os.Services.{
  ServiceState, Round, Watch, max_consecutive, backoff, is_clean, healthy, counted, supervise,
  gave_up,
}
use doll_os.Services.Rounds.{
  resting, spawn-stopping, supervise-again, supervise-over, supervise-clean,
}
use doll_os.Services.Streaks.{Rounds, IsCrash, IsQuick}

-- A power of two below 32.
abbrev pub IsWait : ℕ → Type 0
IsWait d = (k : ℕ) × (k < max_consecutive) × (d ≡ 2 ^ k)

backoff-IsWait : (n : ℕ) → n ≤ max_consecutive → IsWait (backoff n)
unfolding backoff
backoff-IsWait zero l = (0, omega arith, refl)
backoff-IsWait (suc zero) l = (0, omega arith, refl)
backoff-IsWait (suc (suc zero)) l = (1, omega arith, refl)
backoff-IsWait (suc (suc (suc zero))) l = (2, omega arith, refl)
backoff-IsWait (suc (suc (suc (suc zero)))) l = (3, omega arith, refl)
backoff-IsWait (suc (suc (suc (suc (suc zero))))) l = (4, omega arith, refl)
backoff-IsWait (suc (suc (suc (suc (suc (suc n)))))) l = absurd (omega arith)

module _ (floats : Floats) where
  -- Given up, whatever the state is left in.
  record Over (w : Watch) : Type 0 where
    pub told : w.notice ≢ none
    pub phase : w.state.phase ≡ gave_up

  Over-now :
      (n : ℕ) (r : Round floats) (rounds : Rounds floats) (st : ServiceState)
      → st.stopping ≡ false
      → IsCrash floats r
      → counted floats (healthy floats r.uptime) st.consecutive_failures ≡ n
      → ltb max_consecutive n ≡ true
      → Over (supervise floats (r ∷ rounds) st)
  Over-now n r rounds st s c e l =
      rw (supervise-over floats n r rounds st s c e l) (record { told = λ x. cc; phase = refl })

  Over-later :
      (n : ℕ) (r : Round floats) (rounds : Rounds floats) (st : ServiceState)
      → st.stopping ≡ false
      → IsCrash floats r
      → counted floats (healthy floats r.uptime) st.consecutive_failures ≡ n
      → ltb max_consecutive n ≡ false
      → Over (supervise floats rounds (resting floats n r st))
      → Over (supervise floats (r ∷ rounds) st)
  Over-later n r rounds st s c e l h =
      rw (supervise-again floats n r rounds st s c e l) (record { told = h.told; phase = h.phase })

  -- What holds of every state in which the loop may start a round, where it holds behind the crash.
  Over-step :
      (r : Round floats) (rounds : Rounds floats) (st : ServiceState)
      → st.stopping ≡ false
      → IsCrash floats r
      → ((n : ℕ)
          → counted floats (healthy floats r.uptime) st.consecutive_failures ≡ n
          → Over (supervise floats rounds (resting floats n r st)))
      → Over (supervise floats (r ∷ rounds) st)
  Over-step r rounds st s c ih =
      let n = counted floats (healthy floats r.uptime) st.consecutive_failures in
      elim (Bool-cases (ltb max_consecutive n)) [
        | inl y ↦ Over-now n r rounds st s c refl y
        | inr l ↦ Over-later n r rounds st s c refl l (ih n refl)
      ]

  counted-pos : (b : Bool) (n : ℕ) → 1 ≤ counted floats b n
  counted-pos true n = omega arith
  counted-pos false n = omega arith

  quick_end :
      (quick after : Rounds floats) (st : ServiceState)
      → st.stopping ≡ false
      → All (IsQuick floats) quick
      → max_consecutive < st.consecutive_failures + length quick
      → st.consecutive_failures ≤ max_consecutive
      → Over (supervise floats (quick ++ after) st)
  quick_end [] after st s a l m = absurd (omega arith)
  quick_end (r ∷ quick) after st s a l m =
      let n = suc st.consecutive_failures in
      let e : counted floats (healthy floats r.uptime) st.consecutive_failures ≡ n =
        ap (λ b. counted floats b st.consecutive_failures) a.0.1 ∙ omega arith in
      elim (Bool-cases (ltb max_consecutive n)) [
        | inl y ↦ Over-now n r (quick ++ after) st s a.0.0 e y
        | inr k ↦ Over-later n r (quick ++ after) st s a.0.0 e k (
            quick_end quick after (resting floats n r st) (spawn-stopping floats r st ∙ s) a.1
              (omega (arith, l)) (ground (arith, k)))
      ]

  streak_end :
      (r : Round floats) (quick after : Rounds floats) (st : ServiceState)
      → st.stopping ≡ false
      → IsCrash floats r
      → All (IsQuick floats) quick
      → length quick ≡ max_consecutive
      → Over (supervise floats (r ∷ (quick ++ after)) st)
  streak_end r quick after st s c a l =
      let n = counted floats (healthy floats r.uptime) st.consecutive_failures in
      let p = counted-pos (healthy floats r.uptime) st.consecutive_failures in
      elim (Bool-cases (ltb max_consecutive n)) [
        | inl y ↦ Over-now n r (quick ++ after) st s c refl y
        | inr k ↦ Over-later n r (quick ++ after) st s c refl k (
            quick_end quick after (resting floats n r st) (spawn-stopping floats r st ∙ s) a
              (omega (arith, l, p)) (ground (arith, k)))
      ]

  -- A service that crashes at every end, and somewhere five times more before it counts as healthy, is
  -- given up.
  pub streak-gives_up :
      (before quick after : Rounds floats) (first : Round floats) (st : ServiceState)
      → st.stopping ≡ false
      → All (IsCrash floats) before
      → IsCrash floats first
      → All (IsQuick floats) quick
      → length quick ≡ max_consecutive
      → ((supervise floats (before ++ (first ∷ (quick ++ after))) st).notice ≢ none)
        × ((supervise floats (before ++ (first ∷ (quick ++ after))) st).state.phase ≡ gave_up)
  streak-gives_up before quick after first st s b c a l =
      let h = over before st s b in (h.told, h.phase)
    where
      over :
          (before : Rounds floats) (st : ServiceState)
          → st.stopping ≡ false
          → All (IsCrash floats) before
          → Over (supervise floats (before ++ (first ∷ (quick ++ after))) st)
      over [] st s b = streak_end first quick after st s c a l
      over (r ∷ before) st s b =
          Over-step r (before ++ (first ∷ (quick ++ after))) st s b.0
            (λ n e. over before (resting floats n r st) (spawn-stopping floats r st ∙ s) b.1)

  supervise-nil : (st : ServiceState) → (supervise floats [] st).delays ≡ []
  unfolding supervise
  supervise-nil st = refl

  -- Whatever happens to a service that is not stopped: each delay before a restart is 1, 2, 4, 8 or 16
  -- seconds, so the bound of sixty never cuts one.
  pub supervise-IsWait :
      (rounds : Rounds floats) (st : ServiceState)
      → st.stopping ≡ false
      → All IsWait (supervise floats rounds st).delays
  supervise-IsWait [] st s = rw (supervise-nil st) tt
  supervise-IsWait (r ∷ rounds) st s =
      let n = counted floats (healthy floats r.uptime) st.consecutive_failures in
      elim (Bool-cases (is_clean r.rc)) [
        | inl y ↦ rw (supervise-clean floats r rounds st s y) tt
        | inr c ↦ elim (Bool-cases (ltb max_consecutive n)) [
          | inl y ↦ rw (supervise-over floats n r rounds st s c refl y) tt
          | inr k ↦ rw (supervise-again floats n r rounds st s c refl k) (
            backoff-IsWait n (ground (arith, k)),
            supervise-IsWait rounds (resting floats n r st) (spawn-stopping floats r st ∙ s),
          )
        ]
      ]
