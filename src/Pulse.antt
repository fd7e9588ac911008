-- ===== src/Pulse.antt =====
-- src/dollos/mind/pulse_observer.py: which readings of the machine wake Doll, and the buckets of
-- src/dollos/perception/system_pulse.py that it reads. Floats and `str.lower` are parameters; the
-- texts of the alerts are left out, and what they are made from is kept.
pub mod Policy
pub mod Table
pub mod Episodes
mod Examples
use doll_os.Prelude.{
  ℕ, String, Bool, true, false, not, ◌&&◌, ◌||◌, Option, none, some, List, [], ◌∷◌, ◌++◌, ◌==◌,
  if◌then◌else◌,
}
use doll_os.Prelude.Floats.{Floats}

pub data Severity : Type 0 where
  critical advisory : Severity

abbrev pub same_text : Option String → String → Bool
same_text none s = false
same_text (some t) s = t == s

module _ (floats : Floats) (lower : String → String) where
  open floats use {Real, number, sub, less, at_least}

  unfoldable pub bucket_gpu_temp : Real → String
  bucket_gpu_temp t =
      if less t (number 55) then "cool" else if less t (number 75) then "warm" else "hot"

  unfoldable pub bucket_battery : Real → String
  bucket_battery pct =
      if at_least pct (number 95)
      then "full"
      else if at_least pct (number 30)
      then "healthy"
      else if at_least pct (number 15)
      then "low"
      else "critical"

  unfoldable pub bucket_idle : Real → String
  bucket_idle s =
      if less s (number 60) then "present" else if less s (number 600) then "away" else "long-away"

  pub record PulseSample : Type 0 where
    pub gpus : List (Real × Real)
    pub battery_pct : Option Real
    pub battery_status : Option String
    pub active_window : Option String
    pub idle_s : Option Real

  pub data Alert : Type 0 where
    battery_critical : Option Real → Alert
    gpu_hot : Option Real → Alert
    window_stuck : Option String → Option Real → Alert

  abbrev pub severity : Alert → Severity
  severity (battery_critical pct) = critical
  severity (gpu_hot t) = critical
  severity (window_stuck w s) = advisory

  pub record AlertState : Type 0 where
    pub battery_armed : Bool
    pub gpu_armed : Bool
    pub stuck_window : Option String
    pub stuck_since : Option Real
    pub stuck_armed : Bool
    pub last_fire_at : Real

  unfoldable pub initial : AlertState
  initial = record {
    battery_armed = true;
    gpu_armed = true;
    stuck_window = none;
    stuck_since = none;
    stuck_armed = true;
    last_fire_at = number 0;
  }

  unfoldable pub battery_bad : PulseSample → Bool
  unfolding bucket_battery
  battery_bad s = elim s.battery_pct [
    | none ↦ false
    | some pct ↦
        bucket_battery pct == "critical"
        && lower (elim s.battery_status [ none ↦ "" | some t ↦ t ]) == "discharging"
  ]

  -- `max(t for _, t in gpus)`: the first of the greatest.
  unfoldable pub max_temp : Real → List (Real × Real) → Real
  max_temp best [] = best
  max_temp best ((u, t) ∷ gpus) = max_temp (if less best t then t else best) gpus

  unfoldable pub hottest : PulseSample → Option Real
  unfolding max_temp
  hottest s = elim s.gpus [ [] ↦ none | g ∷ gpus ↦ some (max_temp g.1 gpus) ]

  unfoldable pub gpu_bad : PulseSample → Bool
  unfolding hottest bucket_gpu_temp
  gpu_bad s = elim (hottest s) [ none ↦ false | some t ↦ bucket_gpu_temp t == "hot" ]

  unfoldable pub present : PulseSample → Bool
  unfolding bucket_idle
  present s = elim s.idle_s [ none ↦ false | some i ↦ bucket_idle i == "present" ]

  -- The third rule: whether the window is stuck, and its streak behind the sample.
  unfoldable pub track_window : Real → PulseSample → Real → AlertState → Bool × AlertState
  unfolding present
  track_window window_stuck_s s now st = elim s.active_window [
    | none ↦ (false, record st { stuck_window = none; stuck_since = none; stuck_armed = true })
    | some w ↦
        if not (same_text st.stuck_window w)
        then (
          false,
          record st {
            stuck_window = some w;
            stuck_since = if present s then some now else none;
            stuck_armed = true;
          },
        )
        else if not (present s)
        then (false, record st { stuck_since = none; stuck_armed = true })
        else elim st.stuck_since [
          | none ↦ (false, record st { stuck_since = some now })
          | some t ↦ (at_least (sub now t) window_stuck_s, st)
        ]
  ]

  -- `if not bad: armed = True`
  unfoldable pub rearm : PulseSample → AlertState → AlertState
  unfolding battery_bad gpu_bad
  rearm s st = record st {
    battery_armed = st.battery_armed || not (battery_bad s);
    gpu_armed = st.gpu_armed || not (gpu_bad s);
  }

  abbrev pub when : Bool → Alert → List Alert
  when true a = a ∷ []
  when false a = []

  unfoldable pub candidates : PulseSample → Bool → AlertState → List Alert
  unfolding battery_bad gpu_bad hottest
  candidates s stuck_bad st =
      when (battery_bad s && st.battery_armed) (battery_critical s.battery_pct)
      ++ (when (gpu_bad s && st.gpu_armed) (gpu_hot (hottest s))
          ++ when (stuck_bad && st.stuck_armed) (window_stuck st.stuck_window st.stuck_since))

  unfoldable pub disarm : Alert → AlertState → AlertState
  disarm (battery_critical pct) st = record st { battery_armed = false }
  disarm (gpu_hot t) st = record st { gpu_armed = false }
  disarm (window_stuck w t) st = record st { stuck_armed = false }

  -- The last loop.
  unfoldable pub emit_alerts : Real → Real → List Alert → AlertState → List Alert × AlertState
  unfolding disarm
  emit_alerts throttle_s now [] st = ([], st)
  emit_alerts throttle_s now (a ∷ alerts) st =
      let r = emit_alerts throttle_s now alerts (disarm a (record st { last_fire_at = now })) in
      if less (sub now st.last_fire_at) throttle_s then ([], st) else (a ∷ r.0, r.1)

  unfoldable pub evaluate_alerts :
      Real → Real → AlertState → PulseSample → Real → List Alert × AlertState
  unfolding rearm track_window candidates emit_alerts
  evaluate_alerts throttle_s window_stuck_s st s now =
      let tracked = track_window window_stuck_s s now (rearm s st) in
      emit_alerts throttle_s now (candidates s tracked.0 tracked.1) tracked.1
