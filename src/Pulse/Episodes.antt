-- ===== src/Pulse/Episodes.antt =====
-- A run of evaluations: a condition that stays bad wakes Doll once.
use doll_os.Prelude.{
  ℕ, suc, ◌+◌, ◌≤◌, ◌≡◌, refl, ap, ◌∙◌, Bool, true, false, ◌&&◌, String, Option, List, [], ◌∷◌,
  ◌++◌, Bool-cases, inl, inr, arith, All,
}
use doll_os.Prelude.Floats.{Floats}
use doll_os.Pulse.{
  hottest, PulseSample, Alert, battery_critical, gpu_hot, window_stuck, AlertState, battery_bad,
  gpu_bad, track_window, rearm, when, candidates, disarm, emit_alerts, evaluate_alerts,
}

module _ (floats : Floats) (lower : String → String) where
  open floats use {Real, number, sub, less, at_least}

  abbrev pub battery_alerts : List (Alert floats lower) → ℕ
  battery_alerts [] = 0
  battery_alerts (battery_critical pct ∷ alerts) = suc (battery_alerts alerts)
  battery_alerts (gpu_hot t ∷ alerts) = battery_alerts alerts
  battery_alerts (window_stuck w t ∷ alerts) = battery_alerts alerts

  -- The samples one by one, each with its time.
  unfoldable pub watch :
      Real
      → Real
      → List (PulseSample floats lower × Real)
      → AlertState floats lower
      → List (Alert floats lower) × AlertState floats lower
  watch throttle_s window_stuck_s [] st = ([], st)
  watch throttle_s window_stuck_s ((s, now) ∷ samples) st =
      let r = evaluate_alerts floats lower throttle_s window_stuck_s st s now in
      let rest = watch throttle_s window_stuck_s samples r.1 in (r.0 ++ rest.0, rest.1)

  battery_alerts-append :
      (xs ys : List (Alert floats lower))
      → battery_alerts (xs ++ ys) ≡ battery_alerts xs + battery_alerts ys
  battery_alerts-append [] ys = omega arith
  battery_alerts-append (battery_critical pct ∷ xs) ys = omega (arith, battery_alerts-append xs ys)
  battery_alerts-append (gpu_hot t ∷ xs) ys = battery_alerts-append xs ys
  battery_alerts-append (window_stuck w t ∷ xs) ys = battery_alerts-append xs ys

  -- One for an arm that stands, none for an arm that is gone.
  abbrev pub arm : Bool → ℕ
  arm true = 1
  arm false = 0

  track_window-battery_armed :
      (window_stuck_s : Real) (s : PulseSample floats lower) (now : Real)
      (st : AlertState floats lower)
      → (track_window floats lower window_stuck_s s now st).1.battery_armed ≡ st.battery_armed
  unfolding track_window
  track_window-battery_armed window_stuck_s s now st = ground arith

  arm-le : (b : Bool) → arm b ≤ 1
  arm-le true = omega arith
  arm-le false = omega arith

  disarm-rest :
      (a : Alert floats lower) (alerts : List (Alert floats lower)) (now : Real)
      (st : AlertState floats lower)
      → battery_alerts (a ∷ alerts) ≤ arm st.battery_armed
      → battery_alerts alerts
        ≤ arm (disarm floats lower a (record st { last_fire_at = now })).battery_armed
  unfolding disarm
  disarm-rest (battery_critical pct) alerts now st h = omega (arith, h, arm-le st.battery_armed)
  disarm-rest (gpu_hot t) alerts now st h = h
  disarm-rest (window_stuck w t) alerts now st h = h

  disarm-arm :
      (a : Alert floats lower) (alerts : List (Alert floats lower)) (now : Real)
      (st : AlertState floats lower)
      → battery_alerts (a ∷ alerts) ≤ arm st.battery_armed
      → battery_alerts (a ∷ [])
          + arm (disarm floats lower a (record st { last_fire_at = now })).battery_armed
        ≤ arm st.battery_armed
  unfolding disarm
  disarm-arm (battery_critical pct) alerts now st h = omega (arith, h)
  disarm-arm (gpu_hot t) alerts now st h = omega arith
  disarm-arm (window_stuck w t) alerts now st h = omega arith

  -- What the loop sends and the arm that it leaves come out of the arm that it finds.
  emit_alerts-arm :
      (throttle_s now : Real) (alerts : List (Alert floats lower)) (st : AlertState floats lower)
      → battery_alerts alerts ≤ arm st.battery_armed
      → battery_alerts (emit_alerts floats lower throttle_s now alerts st).0
          + arm (emit_alerts floats lower throttle_s now alerts st).1.battery_armed
        ≤ arm st.battery_armed
  unfolding emit_alerts disarm
  emit_alerts-arm throttle_s now [] st h = omega arith
  emit_alerts-arm throttle_s now (a ∷ alerts) st h =
      let next = disarm floats lower a (record st { last_fire_at = now }) in
      let rest = emit_alerts-arm throttle_s now alerts next (disarm-rest a alerts now st h) in
      elim (Bool-cases (less (sub now st.last_fire_at) throttle_s)) [
        | inl y ↦ rw y (omega arith)
        | inr n ↦ rw n (
            omega (
              arith,
              rest,
              disarm-arm a alerts now st h,
              battery_alerts-append (a ∷ [])
                  (emit_alerts floats lower throttle_s now alerts next).0,
            ))
      ]

  when-battery :
      (pct : Option Real) (bad armed : Bool)
      → battery_alerts (when floats lower (bad && armed) (battery_critical pct)) ≤ arm armed
  when-battery pct true true = omega arith
  when-battery pct true false = omega arith
  when-battery pct false armed = omega arith

  when-gpu : (t : Option Real) (b : Bool) → battery_alerts (when floats lower b (gpu_hot t)) ≡ 0
  when-gpu t true = refl
  when-gpu t false = refl

  when-window :
      (w : Option String) (t : Option Real) (b : Bool)
      → battery_alerts (when floats lower b (window_stuck w t)) ≡ 0
  when-window w t true = refl
  when-window w t false = refl

  candidates-arm :
      (s : PulseSample floats lower) (stuck_bad : Bool) (st : AlertState floats lower)
      → battery_alerts (candidates floats lower s stuck_bad st) ≤ arm st.battery_armed
  unfolding candidates
  candidates-arm s stuck_bad st = omega (
    arith,
    battery_alerts-append
        (when floats lower (battery_bad floats lower s && st.battery_armed)
          (battery_critical s.battery_pct))
        (when floats lower (gpu_bad floats lower s && st.gpu_armed)
            (gpu_hot (hottest floats lower s))
          ++ when floats lower (stuck_bad && st.stuck_armed)
              (window_stuck st.stuck_window st.stuck_since)),
    battery_alerts-append
        (when floats lower (gpu_bad floats lower s && st.gpu_armed)
          (gpu_hot (hottest floats lower s)))
        (when floats lower (stuck_bad && st.stuck_armed)
          (window_stuck st.stuck_window st.stuck_since)),
    when-battery s.battery_pct (battery_bad floats lower s) st.battery_armed,
    when-gpu (hottest floats lower s) (gpu_bad floats lower s && st.gpu_armed),
    when-window st.stuck_window st.stuck_since (stuck_bad && st.stuck_armed),
  )

  rearm-bad :
      (st : AlertState floats lower) (s : PulseSample floats lower)
      → battery_bad floats lower s ≡ true
      → (rearm floats lower s st).battery_armed ≡ st.battery_armed
  unfolding rearm
  rearm-bad st s h = ground (arith, h)

  evaluate_alerts-arm :
      (throttle_s window_stuck_s : Real) (st : AlertState floats lower)
      (s : PulseSample floats lower) (now : Real)
      → battery_bad floats lower s ≡ true
      → battery_alerts (evaluate_alerts floats lower throttle_s window_stuck_s st s now).0
          + arm (evaluate_alerts floats lower throttle_s window_stuck_s st s now).1.battery_armed
        ≤ arm st.battery_armed
  unfolding evaluate_alerts
  evaluate_alerts-arm throttle_s window_stuck_s st s now h =
      let t = track_window floats lower window_stuck_s s now (rearm floats lower s st) in
      omega (
        arith,
        emit_alerts-arm throttle_s now (candidates floats lower s t.0 t.1) t.1
            (candidates-arm s t.0 t.1),
        ap arm (
            track_window-battery_armed window_stuck_s s now (rearm floats lower s st)
            ∙ rearm-bad st s h),
      )

  -- While the battery stays critical, at most one alert of it goes out, and none if one already has
  -- since it was last well.
  pub watch-battery :
      (throttle_s window_stuck_s : Real) (samples : List (PulseSample floats lower × Real))
      (st : AlertState floats lower)
      → All (λ e. battery_bad floats lower e.0 ≡ true) samples
      → battery_alerts (watch throttle_s window_stuck_s samples st).0 ≤ arm st.battery_armed
  unfolding watch
  watch-battery throttle_s window_stuck_s [] st h = omega arith
  watch-battery throttle_s window_stuck_s ((s, now) ∷ samples) st h =
      let r = evaluate_alerts floats lower throttle_s window_stuck_s st s now in
      omega (
        arith,
        battery_alerts-append r.0 (watch throttle_s window_stuck_s samples r.1).0,
        evaluate_alerts-arm throttle_s window_stuck_s st s now h.0,
        watch-battery throttle_s window_stuck_s samples r.1 h.1,
      )
