-- ===== src/Services/Life.antt =====
-- The two tasks of a service, `_supervise` and `_stop_one`, in any interleaving at their awaits. A start
-- of a process that is cancelled leaves none, and one that finds the service stopping is killed and waited
-- for on the spot.
use doll_os.Prelude.Floats.{Floats}
use doll_os.Prelude.{◌≡◌, ◌≢◌, true, false}
use doll_os.Services.{
  ServiceState, Exit, no_code, live, exited, running, stopped, AfterExit, leave, give_up,
  restart_in, after_exit,
}

-- Where `_supervise` stands: not started, at the head of its loop, in `_spawn`, in `wait`, in `sleep`,
-- or done.
pub data Loop : Type 0 where
  unstarted head spawning waiting sleeping over : Loop

-- Where `_stop_one` stands: not called, in its wait behind SIGINT, in its wait behind SIGKILL, in its
-- wait for the other task, at its last look for a process, or done.
pub data Halt : Type 0 where
  uncalled grace killing joining last_look halted : Halt

pub data World : Type 0 where
  at : Loop → Halt → ServiceState → World

abbrev pub loop_of : AfterExit → Loop
loop_of leave = over
loop_of (give_up rc) = over
loop_of (restart_in d) = sleeping

abbrev pub with_dead : ServiceState → ServiceState
with_dead st = record st { proc = exited }

-- The task is done, or was never made.
abbrev pub IsDone : Loop → Type 0
IsDone unstarted = Unit
IsDone over = Unit
IsDone head = ⊥
IsDone spawning = ⊥
IsDone waiting = ⊥
IsDone sleeping = ⊥

module _ (floats : Floats) where
  open floats use {Real}

  abbrev pub exit_world : Halt → ServiceState × AfterExit → World
  exit_world h (st, n) = at (loop_of n) h st

  pub data Step : World → World → Type 0 where
    -- `start`
    start : {h : Halt} {st : ServiceState} → Step (at unstarted h st) (at head h st)
    -- `_supervise` and `_spawn`
    enter :
        {h : Halt} {st : ServiceState}
        → st.stopping ≡ false
        → Step (at head h st) (at spawning h st)
    leave_loop :
        {h : Halt} {st : ServiceState} → st.stopping ≡ true → Step (at head h st) (at over h st)
    spawned :
        {h : Halt} {st : ServiceState}
        → st.stopping ≡ false
        → Step (at spawning h st) (at waiting h (record st { proc = live; phase = running }))
    aborted :
        {h : Halt} {st : ServiceState} → st.stopping ≡ true → Step (at spawning h st) (at over h st)
    spawn_failed :
        {h : Halt} {st : ServiceState} (uptime : Real)
        → Step (at spawning h st) (exit_world h (after_exit floats no_code uptime st))
    noticed :
        {h : Halt} {st : ServiceState} (rc : Exit) (uptime : Real)
        → st.proc ≢ live
        → Step (at waiting h st) (exit_world h (after_exit floats rc uptime st))
    woke : {h : Halt} {st : ServiceState} → Step (at sleeping h st) (at head h st)
    -- The process ends, by itself or by a signal.
    died :
        {l : Loop} {h : Halt} {st : ServiceState}
        → st.proc ≡ live
        → Step (at l h st) (at l h (with_dead st))
    -- `_stop_one`
    interrupt :
        {l : Loop} {st : ServiceState}
        → st.proc ≡ live
        → Step (at l uncalled st) (at l grace (record st { stopping = true }))
    skip_signal :
        {l : Loop} {st : ServiceState}
        → st.proc ≢ live
        → Step (at l uncalled st) (at l joining (record st { stopping = true }))
    ended_in_time :
        {l : Loop} {st : ServiceState} → st.proc ≢ live → Step (at l grace st) (at l joining st)
    escalate : {l : Loop} {st : ServiceState} → Step (at l grace st) (at l killing st)
    killed :
        {l : Loop} {st : ServiceState} → st.proc ≢ live → Step (at l killing st) (at l joining st)
    cancelled : {l : Loop} {st : ServiceState} → Step (at l joining st) (at over joining st)
    joined : {l : Loop} {st : ServiceState} → IsDone l → Step (at l joining st) (at l last_look st)
    finished :
        {l : Loop} {st : ServiceState}
        → st.proc ≢ live
        → Step (at l last_look st) (at l halted (record st { phase = stopped }))

  -- What any steps lead to.
  pub data Reach (w : World) : World → Type 0 where
    here : Reach w w
    next : {u v : World} → Reach w u → Step u v → Reach w v
