-- ===== src/Schedule.antt =====
-- `due_entries` of src/dollos/schedule.py, and what `_schedule_runner` of src/dollos/kernel.py does with
-- it at each poll of one day. A time is in microseconds since midnight.
pub mod Once
mod Examples
use doll_os.Prelude.{
  ℕ, ◌+◌, String, Bool, true, false, not, ◌&&◌, ◌||◌, Option, none, some, List, [], ◌∷◌, ◌++◌, eqb,
  ltb, keep, map,
}

pub record ScheduleEntry : Type 0 where
  pub time : ℕ
  pub intent : String

abbrev pub one_minute : ℕ
one_minute = 60000000

-- `t in fired`
unfoldable pub has_fired : ℕ → List ℕ → Bool
has_fired t [] = false
has_fired t (u ∷ fired) = eqb t u || has_fired t fired

-- `moment < one_min_ago` is read as `moment + one_minute < now`.
unfoldable pub is_due : ℕ → List ℕ → ScheduleEntry → Bool
unfolding has_fired
is_due now fired e =
    not (has_fired e.time fired) && not (ltb now e.time) && not (ltb (e.time + one_minute) now)

unfoldable pub due_entries : List ScheduleEntry → ℕ → List ℕ → List ScheduleEntry
unfolding is_due
due_entries entries now fired = keep (is_due now fired) entries

-- A poll: the time, and the schedule if its file is there and can be read.
abbrev pub Poll : Type 0
Poll = ℕ × Option (List ScheduleEntry)

abbrev pub entries_of : Option (List ScheduleEntry) → List ScheduleEntry
entries_of none = []
entries_of (some entries) = entries

-- What each poll of the day fires.
unfoldable pub schedule_runner : List Poll → List ℕ → List (List ScheduleEntry)
unfolding due_entries
schedule_runner [] fired = []
schedule_runner ((now, schedule) ∷ polls) fired =
    let due = due_entries (entries_of schedule) now fired in
    due ∷ schedule_runner polls (fired ++ map (λ (e : ScheduleEntry). e.time) due)
