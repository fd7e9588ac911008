-- ===== src/Pulse/Examples.antt =====
-- The alerts with whole numbers for floats; the test texts are in lower case already.
use doll_os.Prelude.{◌≡◌, ◌≤◌, refl, String, none, some, [], ◌∷◌}
use doll_os.Prelude.Floats.{whole}
use doll_os.Pulse.{PulseSample, battery_critical, gpu_hot, initial, evaluate_alerts}
use doll_os.Pulse.Table.{verdict, evaluate_alerts-verdict}
use doll_os.Pulse.Episodes.{battery_alerts, watch, watch-battery, arm}

abbrev lower : String → String
lower s = s

-- The battery is at 9 % and the GPU at 80 degrees.
abbrev bad : PulseSample whole lower
bad = record {
  gpus = (30, 80) ∷ [];
  battery_pct = some 9;
  battery_status = some "discharging";
  active_window = none;
  idle_s = some 5;
}

-- The battery goes first, the GPU at the next evaluation that the throttle lets through.
two_alerts :
    (watch whole lower 100 1800
      ((bad, 500) ∷ (bad, 560) ∷ (bad, 620) ∷ (bad, 900) ∷ [])
      (initial whole lower)).0
    ≡ battery_critical (some 9) ∷ gpu_hot (some 80) ∷ []
unfolding watch evaluate_alerts initial
two_alerts = refl

evaluate_alerts-verdict_example :
    evaluate_alerts whole lower 100 1800 (initial whole lower) bad 500
    ≡ verdict whole lower 100 1800 (initial whole lower) bad 500
evaluate_alerts-verdict_example =
    evaluate_alerts-verdict whole lower 100 1800 (initial whole lower) bad 500 refl

watch-battery_example :
    battery_alerts whole lower
      (watch whole lower 100 1800 ((bad, 500) ∷ (bad, 900) ∷ []) (initial whole lower)).0
    ≤ arm whole lower (initial whole lower).battery_armed
unfolding evaluate_alerts
watch-battery_example =
    watch-battery whole lower 100 1800 ((bad, 500) ∷ (bad, 900) ∷ []) (initial whole lower)
      (refl, (refl, tt))
