-- ===== src/MindState/State.antt =====
-- `MindState`, `save_state` and `load_state`. A field that is loaded as it is holds any JSON value.
-- `tool_stats` of a file is taken to be an object. The file is what a read makes of it.
-- The loader refuses a value that it cannot rebuild; other faults of the disk are left out.
use doll_os.Wal.{legacy_kinds}
use doll_os.Prelude.{
  ◌>>=◌, ℕ, ◌-◌, String, Bool, true, false, not, ◌&&◌, Option, none, some, List, [], ◌∷◌, map,
  length, drop, leb, if◌then◌else◌, member,
}
use doll_os.Prelude.Dict.{Dict, get, put, has}
use doll_os.Prelude.Floats.{Floats, max_of, min_of}
use doll_os.MindState.Json.{
  items, members, Json, truth, text, count, number, array, object, as_array, as_object, or_default,
  to_members, to_items,
}
use doll_os.MindState.Rows.{
  Mood, ActiveTask, PendingEvent, OpenLoop, PerceptionRow, OutputRecord, ToolFailure, write_mood,
  read_mood, write_task, read_task, write_event, read_event, write_loop, read_loop,
  write_perception, read_perception, write_output, read_output, write_failure, read_failure,
  read_list,
}

pub record MindState (Real : Type 0) : Type 0 where
  pub mood : Mood Real
  pub focus : Json Real
  pub scratchpad : Json Real
  pub active_tasks : List (ActiveTask Real)
  pub pending_events : List (PendingEvent Real)
  pub open_loops : List (OpenLoop Real)
  pub recent_perceptions : List (PerceptionRow Real)
  pub recent_outputs : List (OutputRecord Real)
  pub tool_stats : Dict (Json Real)
  pub recent_tool_failures : List (ToolFailure Real)
  pub last_user_at : Json Real
  pub last_iter_at : Json Real
  pub iter_count : Json Real
  pub session_started_at : Json Real
  pub safe_mode : Json Real
  pub safe_mode_reason : Json Real
  pub last_repeat_alert_key : Json Real
  pub user_turn_count : Json Real
  pub last_consolidation_turn : Json Real
  pub last_consolidation_at : Json Real
  pub last_consolidated_date : Json Real
  pub energy : Real
  pub last_energy_restore_at : Json Real
  pub last_evolution_attempt_at : Real
  pub evolution_interval_days : Real
  pub evolution_hwm : ℕ

-- `deque(xs, maxlen=n)`
abbrev pub deque_of {ℓ} : {A : Type ℓ} → ℕ → List A → List A
deque_of n xs = drop (length xs - n) xs

abbrev pub tool_stats_cap : ℕ
tool_stats_cap = 50

-- `_ToolStatsDict.__setitem__`
unfoldable pub put_stat {ℓ} : {V : Type ℓ} → Dict V → String → V → Dict V
unfolding get put
put_stat d k v =
    if not (has d k) && leb tool_stats_cap (length d) then put (drop 1 d) k v else put d k v

-- `tool_stats.update(raw)`
unfoldable pub put_stats {ℓ} : {V : Type ℓ} → Dict V → Dict V → Dict V
unfolding put_stat
put_stats d [] = d
put_stats d ((k, v) ∷ raw) = put_stats (put_stat d k v) raw

-- What stands in a file: bytes that are no text, a text that is no JSON, or a value.
pub data Content (Real : Type 0) : Type 0 where
  not_text not_json : Content Real
  holds : Json Real → Content Real

-- Where the state is kept: the file, and the unreadable file that was put aside.
pub record Disk (Real : Type 0) : Type 0 where
  pub file : Option (Content Real)
  pub quarantined : Option (Content Real)

-- A load raises `MindStateLoadError` or `UnicodeDecodeError`, or gives a state.
pub data Loaded (Real : Type 0) : Type 0 where
  fresh load_error decode_error : Loaded Real
  loaded : MindState Real → Loaded Real

-- `float_of` is `float(v)`, `count_of` is `max(0, int(v))`; none where Python raises.
module _ (floats : Floats) (float_of : Json floats.Real → Option floats.Real)
    (count_of : Json floats.Real → Option ℕ) where
  open floats use {Real}

  unfoldable pub state_dict : MindState Real → Dict (Json Real)
  unfolding to_items to_members
  state_dict s =
      ("mood", write_mood s.mood)
      ∷ ("focus", s.focus)
      ∷ ("scratchpad", s.scratchpad)
      ∷ ("active_tasks", array (map write_task s.active_tasks))
      ∷ ("pending_events", array (map write_event s.pending_events))
      ∷ ("open_loops", array (map write_loop s.open_loops))
      ∷ ("recent_perceptions", array (map write_perception s.recent_perceptions))
      ∷ ("recent_outputs", array (map write_output s.recent_outputs))
      ∷ ("tool_stats", object s.tool_stats)
      ∷ ("recent_tool_failures", array (map write_failure s.recent_tool_failures))
      ∷ ("last_user_at", s.last_user_at)
      ∷ ("last_iter_at", s.last_iter_at)
      ∷ ("iter_count", s.iter_count)
      ∷ ("session_started_at", s.session_started_at)
      ∷ ("safe_mode", s.safe_mode)
      ∷ ("safe_mode_reason", s.safe_mode_reason)
      ∷ ("last_repeat_alert_key", s.last_repeat_alert_key)
      ∷ ("user_turn_count", s.user_turn_count)
      ∷ ("last_consolidation_turn", s.last_consolidation_turn)
      ∷ ("last_consolidation_at", s.last_consolidation_at)
      ∷ ("last_consolidated_date", s.last_consolidated_date)
      ∷ ("energy", number s.energy)
      ∷ ("last_energy_restore_at", s.last_energy_restore_at)
      ∷ ("last_evolution_attempt_at", number s.last_evolution_attempt_at)
      ∷ ("evolution_interval_days", number s.evolution_interval_days)
      ∷ ("evolution_hwm", count s.evolution_hwm)
      ∷ []

  -- `save_state`: whether the file was written and renamed.
  unfoldable pub save_state : Bool → MindState Real → Disk Real → Bool × Disk Real
  unfolding state_dict to_members
  save_state works s disk =
      if works
      then (true, record disk { file = some (holds (object (state_dict s))) })
      else (false, disk)

  -- `p.get("kind") in LEGACY_PERCEPTION_KINDS`; none for what cannot be hashed.
  abbrev pub is_legacy : Option (Json Real) → Option Bool
  is_legacy (some (text k)) = some (member k legacy_kinds)
  is_legacy (some (items xs)) = none
  is_legacy (some (members d)) = none
  is_legacy v = some false

  unfoldable pub read_perceptions : List (Json Real) → Option (List (PerceptionRow Real))
  unfolding as_object get
  read_perceptions [] = some []
  read_perceptions (x ∷ xs) = do
    d ← as_object x
    more ← read_perceptions xs
    legacy ← is_legacy (get d "kind")
    if legacy then some more else do p ← read_perception x; some (p ∷ more)

  -- `min(1.0, max(0.0, x))`
  unfoldable pub clamp : Real → Real
  clamp x = min_of floats (floats.number 1) (max_of floats (floats.number 0) x)

  unfoldable pub read_state : Real → Dict (Json Real) → Option (MindState Real)
  unfolding get as_array as_object put_stats clamp to_items to_members
  read_state now d = do
    mood ← read_mood (or_default (get d "mood") (object []))
    active_tasks ← read_list read_task (or_default (get d "active_tasks") (array []))
    pending_events ← read_list read_event (or_default (get d "pending_events") (array []))
    open_loops ← read_list read_loop (or_default (get d "open_loops") (array []))
    perceptions ← as_array (or_default (get d "recent_perceptions") (array []))
    recent_perceptions ← read_perceptions perceptions
    recent_outputs ← read_list read_output (or_default (get d "recent_outputs") (array []))
    recent_tool_failures ←
        read_list read_failure (or_default (get d "recent_tool_failures") (array []))
    tool_stats ← as_object (or_default (get d "tool_stats") (object []))
    energy ← float_of (or_default (get d "energy") (number (floats.number 1)))
    last_evolution_attempt_at ←
        float_of (or_default (get d "last_evolution_attempt_at") (number (floats.number 0)))
    evolution_interval_days ←
        float_of (or_default (get d "evolution_interval_days") (number (floats.number 0)))
    evolution_hwm ← count_of (or_default (get d "evolution_hwm") (count 0))
    some (record {
      mood = mood;
      focus = or_default (get d "focus") (text "idle");
      scratchpad = or_default (get d "scratchpad") (text "");
      active_tasks = active_tasks;
      pending_events = pending_events;
      open_loops = open_loops;
      recent_perceptions = deque_of 20 recent_perceptions;
      recent_outputs = deque_of 15 recent_outputs;
      tool_stats = put_stats [] tool_stats;
      recent_tool_failures = deque_of 10 recent_tool_failures;
      last_user_at = or_default (get d "last_user_at") (number (floats.number 0));
      last_iter_at = or_default (get d "last_iter_at") (number (floats.number 0));
      iter_count = or_default (get d "iter_count") (count 0);
      session_started_at = number now;
      safe_mode = or_default (get d "safe_mode") (truth false);
      safe_mode_reason = or_default (get d "safe_mode_reason") (text "");
      last_repeat_alert_key = or_default (get d "last_repeat_alert_key") (text "");
      user_turn_count = or_default (get d "user_turn_count") (count 0);
      last_consolidation_turn = or_default (get d "last_consolidation_turn") (count 0);
      last_consolidation_at = or_default (get d "last_consolidation_at") (number (floats.number 0));
      last_consolidated_date = or_default (get d "last_consolidated_date") (text "");
      energy = clamp energy;
      last_energy_restore_at =
          or_default (get d "last_energy_restore_at") (number (floats.number 0));
      last_evolution_attempt_at = last_evolution_attempt_at;
      evolution_interval_days = evolution_interval_days;
      evolution_hwm = evolution_hwm;
    })

  -- `_quarantine_and_raise`
  abbrev pub quarantine_and_raise : Content Real → Loaded Real × Disk Real
  quarantine_and_raise content = (load_error, record { file = none; quarantined = some content })

  -- Behind the check that the file is there. The read catches `JSONDecodeError` only, so bytes that
  -- are no text raise and stay.
  unfoldable pub load_present : Real → Content Real → Disk Real → Loaded Real × Disk Real
  unfolding as_object
  load_present now not_text disk = (decode_error, disk)
  load_present now not_json disk = quarantine_and_raise not_json
  load_present now (holds v) disk = elim (as_object v >>= read_state now) [
    | some s ↦ (loaded s, disk)
    | none ↦ quarantine_and_raise (holds v)
  ]

  unfoldable pub load_state : Real → Disk Real → Loaded Real × Disk Real
  load_state now disk = elim disk.file [
    | none ↦ (fresh, disk)
    | some content ↦ load_present now content disk
  ]
