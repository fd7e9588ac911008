-- ===== src/Services.antt =====
-- src/dollos/service_supervisor.py: long-lived services that are restarted when they crash. The delays
-- of the source are whole seconds; a process is started and ended by the operating system, which the
-- rounds of `supervise` tell of.
pub mod Rounds
pub mod Streaks
pub mod Waits
pub mod Life
pub mod Stopped
mod Examples
use Prim.Native.Nat.{◌^◌}
use doll_os.Prelude.Floats.{Floats}
use doll_os.Prelude.Dict.{Dict, get, put, has}
use doll_os.Prelude.{
  ℕ, ◌+◌, ◌-◌, String, Bool, true, false, Option, none, some, List, [], ◌∷◌, eqb, ltb,
  if◌then◌else◌, min, map,
}

abbrev pub max_consecutive : ℕ
max_consecutive = 5

abbrev pub backoff_max_s : ℕ
backoff_max_s = 60

abbrev pub healthy_uptime_s : ℕ
healthy_uptime_s = 60

-- A return code, a signal, or none, where the start or the wait raised.
pub data Exit : Type 0 where
  code signal : ℕ → Exit
  no_code : Exit

pub data Phase : Type 0 where
  idle running restarting gave_up stopped : Phase

-- What `st.proc` holds.
pub data Process : Type 0 where
  absent live exited : Process

pub record ServiceSpec : Type 0 where
  pub name : String
  pub argv : List String
  pub on_gave_up : Bool

pub record ServiceState : Type 0 where
  pub spec : ServiceSpec
  pub proc : Process
  pub stopping : Bool
  pub consecutive_failures : ℕ
  pub phase : Phase

abbrev pub new_state : ServiceSpec → ServiceState
new_state spec = record {
  spec = spec;
  proc = absent;
  stopping = false;
  consecutive_failures = 0;
  phase = idle;
}

abbrev pub Services : Type 0
Services = Dict ServiceState

-- None where the source raises.
unfoldable pub register : ServiceSpec → Services → Option Services
unfolding put get
register spec services =
    if has services spec.name then none else some (put services spec.name (new_state spec))

-- What `status` says of a service; its pid is there while the process lives.
pub record Status : Type 0 where
  pub name : String
  pub phase : Phase
  pub has_pid : Bool
  pub consecutive_failures : ℕ

abbrev pub is_live : Process → Bool
is_live live = true
is_live absent = false
is_live exited = false

unfoldable pub status : Services → List Status
status [] = []
status ((k, st) ∷ services) =
    record {
      name = st.spec.name;
      phase = st.phase;
      has_pid = is_live st.proc;
      consecutive_failures = st.consecutive_failures;
    }
    ∷ status services

abbrev pub is_clean : Exit → Bool
is_clean (code n) = eqb n 0
is_clean (signal n) = false
is_clean no_code = false

-- `min(1.0 * 2 ** (n - 1), 60.0)`, for `n` above zero
unfoldable pub backoff : ℕ → ℕ
backoff n = min (2 ^ (n - 1)) backoff_max_s

-- What the loop does behind an exit: leave, give up and call `on_gave_up` if there is one, or sleep.
pub data AfterExit : Type 0 where
  leave : AfterExit
  give_up : Exit → AfterExit
  restart_in : ℕ → AfterExit

-- What the loop leaves: the state, the delays that it slept, and whether it gave up.
pub record Watch : Type 0 where
  pub state : ServiceState
  pub delays : List ℕ
  pub notice : Option Exit

abbrev pub onward : (ServiceState → Watch) → ServiceState × AfterExit → Watch
onward rest (st, leave) = record { state = st; delays = []; notice = none }
onward rest (st, give_up rc) = record { state = st; delays = []; notice = some rc }
onward rest (st, restart_in d) =
    let w = rest st in record { state = w.state; delays = d ∷ w.delays; notice = w.notice }

module _ (floats : Floats) where
  open floats use {Real, number, at_least}

  abbrev pub healthy : Real → Bool
  healthy uptime = at_least uptime (number healthy_uptime_s)

  abbrev pub counted : Bool → ℕ → ℕ
  counted true n = 1
  counted false n = n + 1

  abbrev pub crashed : Exit → ℕ → ServiceState → ServiceState × AfterExit
  crashed rc n st =
      if ltb max_consecutive n
      then (record st { consecutive_failures = n; phase = gave_up }, give_up rc)
      else (record st { consecutive_failures = n; phase = restarting }, restart_in (backoff n))

  unfoldable pub after_exit : Exit → Real → ServiceState → ServiceState × AfterExit
  unfolding backoff
  after_exit rc uptime st =
      if st.stopping
      then (st, leave)
      else if is_clean rc
      then (st, leave)
      else crashed rc (counted (healthy uptime) st.consecutive_failures) st

  -- One round of the loop, as the operating system plays it.
  pub record Round : Type 0 where
    pub spawned : Bool
    pub rc : Exit
    pub uptime : Real

  -- What `_spawn` and `wait` leave.
  unfoldable pub spawn : Round → ServiceState → ServiceState
  spawn r st = if r.spawned then record st { proc = exited; phase = running } else st

  -- `_supervise` where `stop` is not called; where the rounds end it is still at work.
  unfoldable pub supervise : List Round → ServiceState → Watch
  unfolding after_exit spawn
  supervise [] st = record { state = st; delays = []; notice = none }
  supervise (r ∷ rounds) st =
      onward (λ q. supervise rounds q) (after_exit r.rc r.uptime (spawn r st))
