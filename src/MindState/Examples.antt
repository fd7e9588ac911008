-- ===== src/MindState/Examples.antt =====
-- A saved state with whole numbers for floats.
use doll_os.Prelude.{ℕ, ◌≡◌, refl, true, none, some, [], ◌∷◌, Option, arith}
use doll_os.Prelude.Floats.{whole}
use doll_os.MindState.Json.{Json, truth, text, count, number, object, array, as_object, as_array}
use doll_os.MindState.Rows.{PerceptionRow, read_list, read_each, read_mood, read_loop}
use doll_os.MindState.State.{
  MindState, Disk, clamp, load_state, save_state, load_present, loaded, read_state, load_error,
  decode_error, not_text, not_json, holds,
}
use doll_os.MindState.RoundTrip.{Surfaces, load_state-present, Kept, load_state-save_state}
use doll_os.Prelude.Dict.{get}

abbrev float_of : Json ℕ → Option ℕ
float_of (number x) = some x
float_of v = none

abbrev count_of : Json ℕ → Option ℕ
count_of (count n) = some n
count_of v = none

abbrev heard : PerceptionRow ℕ
heard = record {
  kind = text "UserSpoke";
  t = number 7;
  data_of = object (("text", text "hi") ∷ []);
  seq = count 3;
}

abbrev mind : MindState ℕ
mind = record {
  mood = record { emotion = text "calm"; reason = text "" };
  focus = text "idle";
  scratchpad = text "";
  active_tasks = [];
  pending_events = record { fire_at = number 20; summary = text "tea" } ∷ [];
  open_loops = [];
  recent_perceptions = heard ∷ [];
  recent_outputs =
      record {
        t = number 8;
        kind = text "speech";
        summary = text "hello";
        origin_tier = text "internal";
      }
      ∷ [];
  tool_stats =
      ("Recall", object (("ok", count 1) ∷ [])) ∷ ("Shell", object (("ok", count 2) ∷ [])) ∷ [];
  recent_tool_failures = [];
  last_user_at = number 7;
  last_iter_at = number 8;
  iter_count = count 5;
  session_started_at = number 1;
  safe_mode = truth true;
  safe_mode_reason = text "shell";
  last_repeat_alert_key = text "";
  user_turn_count = count 2;
  last_consolidation_turn = count 0;
  last_consolidation_at = number 0;
  last_consolidated_date = text "";
  energy = 1;
  last_energy_restore_at = number 0;
  last_evolution_attempt_at = 4;
  evolution_interval_days = 7;
  evolution_hwm = 90;
}

abbrev empty : Disk ℕ
empty = record { file = none; quarantined = none }

mind-Kept : Kept whole float_of count_of mind
unfolding clamp get
mind-Kept = record {
  perceptions = omega arith;
  known = (refl, tt);
  outputs = omega arith;
  failures = omega arith;
  stats = omega arith;
  tools = (refl, (refl, tt));
  energy = refl;
}

load_state-save_state_example :
    load_state whole float_of count_of 100 (save_state whole float_of count_of true mind empty).1
    ≡ (
      loaded (record mind { session_started_at = number 100 }),
      (save_state whole float_of count_of true mind empty).1,
    )
load_state-save_state_example =
    load_state-save_state whole float_of count_of 100 mind empty (λ x. refl) (λ n. refl) mind-Kept

-- A loop that lacks a field: the file is put aside.
abbrev broken : Disk ℕ
broken = record {
  file = some (holds (object (("open_loops", array (object (("id", text "l1") ∷ []) ∷ [])) ∷ [])));
  quarantined = none;
}

broken-load :
    load_state whole float_of count_of 100 broken
    ≡ (load_error, record { file = none; quarantined = broken.file })
unfolding load_state load_present read_state read_list read_each read_mood read_loop as_object
    as_array get
broken-load = refl

-- Bytes that are no text stay, and the load raises.
undecoded-load :
    load_state whole float_of count_of 100 (record { file = some not_text; quarantined = none })
    ≡ (decode_error, record { file = some not_text; quarantined = none })
unfolding load_state load_present
undecoded-load = refl

load_state-present_example :
    Surfaces whole float_of count_of not_json
      (load_state whole float_of count_of 100 (record { file = some not_json; quarantined = none }))
load_state-present_example =
    load_state-present whole float_of count_of 100 not_json
      (record { file = some not_json; quarantined = none }) refl
