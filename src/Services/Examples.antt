-- ===== src/Services/Examples.antt =====
-- A service that crashes, with whole seconds, and one that is stopped while it runs.
use doll_os.Prelude.Floats.{whole}
use doll_os.Prelude.{◌≡◌, ◌≢◌, refl, true, none, List, [], ◌∷◌, ◌++◌, All}
use doll_os.Services.{
  ServiceSpec, ServiceState, Round, code, signal, new_state, supervise, gave_up, exited, stopped,
  after_exit,
}
use doll_os.Services.Streaks.{Streak, gives_up-Streak}
use doll_os.Services.Waits.{IsWait, streak-gives_up, supervise-IsWait}
use doll_os.Services.Life.{
  at, unstarted, over, uncalled, halted, Reach, here, next, start, enter, spawned, died, interrupt,
  ended_in_time, noticed, joined, finished,
}
use doll_os.Services.Stopped.{Sound, reach-Sound}

abbrev bridge : ServiceSpec
bridge = record { name = "discord-bridge"; argv = "bridge" ∷ []; on_gave_up = true }

abbrev crash : Round whole
crash = record { spawned = true; rc = code 1; uptime = 3 }

abbrev late_crash : Round whole
late_crash = record { spawned = true; rc = signal 9; uptime = 100 }

abbrev quick : List (Round whole)
quick = crash ∷ crash ∷ crash ∷ crash ∷ crash ∷ []

-- The delays start again behind a healthy time, and the service is given up.
delays :
    (supervise whole (crash ∷ crash ∷ late_crash ∷ quick) (new_state bridge)).delays
    ≡ 1 ∷ 2 ∷ 1 ∷ 2 ∷ 4 ∷ 8 ∷ 16 ∷ []
unfolding supervise
delays = refl

gives_up-Streak_example : Streak whole (crash ∷ crash ∷ late_crash ∷ quick)
unfolding supervise
gives_up-Streak_example =
    gives_up-Streak whole (crash ∷ crash ∷ late_crash ∷ quick) (new_state bridge) refl refl
      (λ e. cc)

streak-gives_up_example :
    ((supervise whole ((crash ∷ []) ++ (late_crash ∷ (quick ++ []))) (new_state bridge)).notice
      ≢ none)
    × ((supervise whole
          ((crash ∷ []) ++ (late_crash ∷ (quick ++ [])))
          (new_state bridge)).state.phase
        ≡ gave_up)
streak-gives_up_example =
    streak-gives_up whole (crash ∷ []) quick [] late_crash (new_state bridge) refl (refl, tt) refl
      ((refl, refl), ((refl, refl), ((refl, refl), ((refl, refl), ((refl, refl), tt))))) refl

supervise-IsWait_example :
    All IsWait (supervise whole (crash ∷ late_crash ∷ []) (new_state bridge)).delays
supervise-IsWait_example = supervise-IsWait whole (crash ∷ late_crash ∷ []) (new_state bridge) refl

-- Stopped by SIGINT while it runs.
abbrev stopped_bridge : ServiceState
stopped_bridge = record (new_state bridge) { proc = exited; stopping = true; phase = stopped }

stop : Reach whole (at unstarted uncalled (new_state bridge)) (at over halted stopped_bridge)
unfolding after_exit
stop =
    next
      (next
        (next
          (next
            (next
              (next (next (next (next here start) (enter refl)) (spawned refl)) (interrupt refl))
              (died refl))
            (noticed (code 0) 5 (λ e. cc)))
          (ended_in_time (λ e. cc)))
        (joined tt))
      (finished (λ e. cc))

reach-Sound_example : Sound (at over halted stopped_bridge)
reach-Sound_example = reach-Sound whole bridge (at over halted stopped_bridge) stop
