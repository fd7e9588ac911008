-- ===== src/Services/Rounds.antt =====
-- One round of `_supervise`, and the delays.
use doll_os.Prelude.Floats.{Floats}
use doll_os.Prelude.{ℕ, ◌≡◌, refl, ◌∙◌, true, false, none, some, List, [], ◌∷◌, arith, ltb}
use doll_os.Services.{
  ServiceState, Round, AfterExit, max_consecutive, backoff, is_clean, healthy, counted, crashed,
  after_exit, spawn, supervise, restarting, gave_up,
}

module _ (floats : Floats) where
  pub spawn-stopping :
      (r : Round floats) (st : ServiceState) → (spawn floats r st).stopping ≡ st.stopping
  unfolding spawn
  spawn-stopping r st = ground arith

  pub spawn-failures :
      (r : Round floats) (st : ServiceState)
      → (spawn floats r st).consecutive_failures ≡ st.consecutive_failures
  unfolding spawn
  spawn-failures r st = ground arith

  -- A crash of a service that is not stopped.
  pub after_exit-crash :
      (r : Round floats) (st : ServiceState)
      → st.stopping ≡ false
      → is_clean r.rc ≡ false
      → after_exit floats r.rc r.uptime (spawn floats r st)
        ≡ crashed floats r.rc
            (counted floats (healthy floats r.uptime) st.consecutive_failures)
            (spawn floats r st)
  unfolding after_exit
  after_exit-crash r st h c = rw (spawn-stopping r st ∙ h, c, spawn-failures r st) refl

  -- A clean exit leaves.
  pub after_exit-clean :
      (r : Round floats) (st : ServiceState)
      → st.stopping ≡ false
      → is_clean r.rc ≡ true
      → after_exit floats r.rc r.uptime (spawn floats r st) ≡ (spawn floats r st, AfterExit.leave)
  unfolding after_exit
  after_exit-clean r st h c = rw (spawn-stopping r st ∙ h, c) refl

  -- The state in which the loop sleeps.
  abbrev pub resting : ℕ → Round floats → ServiceState → ServiceState
  resting n r st = record (spawn floats r st) { consecutive_failures = n; phase = restarting }

  pub supervise-again :
      (n : ℕ) (r : Round floats) (rounds : List (Round floats)) (st : ServiceState)
      → st.stopping ≡ false
      → is_clean r.rc ≡ false
      → counted floats (healthy floats r.uptime) st.consecutive_failures ≡ n
      → ltb max_consecutive n ≡ false
      → supervise floats (r ∷ rounds) st ≡ (
          let w = supervise floats rounds (resting n r st) in
          record w { delays = backoff n ∷ w.delays })
  unfolding supervise
  supervise-again n r rounds st h c e l = rw (after_exit-crash r st h c, e, l) refl

  pub supervise-over :
      (n : ℕ) (r : Round floats) (rounds : List (Round floats)) (st : ServiceState)
      → st.stopping ≡ false
      → is_clean r.rc ≡ false
      → counted floats (healthy floats r.uptime) st.consecutive_failures ≡ n
      → ltb max_consecutive n ≡ true
      → supervise floats (r ∷ rounds) st ≡ (record {
        state = record (spawn floats r st) { consecutive_failures = n; phase = gave_up };
        delays = [];
        notice = some r.rc;
      })
  unfolding supervise
  supervise-over n r rounds st h c e l = rw (after_exit-crash r st h c, e, l) refl

  pub supervise-clean :
      (r : Round floats) (rounds : List (Round floats)) (st : ServiceState)
      → st.stopping ≡ false
      → is_clean r.rc ≡ true
      → supervise floats (r ∷ rounds) st
        ≡ (record { state = spawn floats r st; delays = []; notice = none })
  unfolding supervise
  supervise-clean r rounds st h c = rw (after_exit-clean r st h c) refl
