-- ===== src/Pulse/Policy.antt =====
-- One evaluation: what the last loop does with its candidates.
use doll_os.Prelude.{
  ◌≡◌, refl, ap, ◌∙◌, Bool, true, String, List, [], ◌∷◌, take, if◌then◌else◌, Bool-cases, inl, inr,
  arith,
}
use doll_os.Prelude.Floats.{Floats}
use doll_os.Pulse.{
  PulseSample, Alert, battery_critical, gpu_hot, window_stuck, AlertState, track_window, rearm,
  candidates, disarm, emit_alerts, evaluate_alerts,
}

module _ (floats : Floats) (lower : String → String) where
  open floats use {Real, number, sub, less, at_least}

  -- What the loop does to the state behind its first candidate.
  abbrev pub fired :
      Real → List (Alert floats lower) → AlertState floats lower → AlertState floats lower
  fired now [] st = st
  fired now (a ∷ alerts) st = disarm floats lower a (record st { last_fire_at = now })

  disarm-last_fire_at :
      (a : Alert floats lower) (st : AlertState floats lower)
      → (disarm floats lower a st).last_fire_at ≡ st.last_fire_at
  unfolding disarm
  disarm-last_fire_at (battery_critical pct) st = refl
  disarm-last_fire_at (gpu_hot t) st = refl
  disarm-last_fire_at (window_stuck w t) st = refl

  emit_alerts-stops :
      (throttle_s now : Real) (alerts : List (Alert floats lower)) (st : AlertState floats lower)
      → less (sub now st.last_fire_at) throttle_s ≡ true
      → emit_alerts floats lower throttle_s now alerts st ≡ ([], st)
  unfolding emit_alerts
  emit_alerts-stops throttle_s now [] st h = refl
  emit_alerts-stops throttle_s now (a ∷ alerts) st h = rw h refl

  emit_alerts-first :
      (throttle_s now : Real) (alerts : List (Alert floats lower)) (st : AlertState floats lower)
      → less (sub now now) throttle_s ≡ true
      → emit_alerts floats lower throttle_s now alerts st ≡ (
          if less (sub now st.last_fire_at) throttle_s
          then ([], st)
          else (take 1 alerts, fired now alerts st))
  unfolding emit_alerts
  emit_alerts-first throttle_s now [] st h =
      elim (Bool-cases (less (sub now st.last_fire_at) throttle_s)) [
        | inl y ↦ rw y refl
        | inr n ↦ rw n refl
      ]
  emit_alerts-first throttle_s now (a ∷ alerts) st h =
      let next = disarm floats lower a (record st { last_fire_at = now }) in
      let e = disarm-last_fire_at a (record st { last_fire_at = now }) in
      rw
        (emit_alerts-stops throttle_s now alerts next (ap (λ t. less (sub now t) throttle_s) e ∙ h))
        refl

  -- The state that the candidates are taken in, and whether the window is stuck.
  abbrev pub tracked :
      Real
      → AlertState floats lower
      → PulseSample floats lower
      → Real
      → Bool × AlertState floats lower
  tracked window_stuck_s st s now =
      track_window floats lower window_stuck_s s now (rearm floats lower s st)

  abbrev pub ready :
      Real → AlertState floats lower → PulseSample floats lower → Real → List (Alert floats lower)
  ready window_stuck_s st s now =
      let t = tracked window_stuck_s st s now in candidates floats lower s t.0 t.1

  track_window-last_fire_at :
      (window_stuck_s : Real) (s : PulseSample floats lower) (now : Real)
      (st : AlertState floats lower)
      → (track_window floats lower window_stuck_s s now st).1.last_fire_at ≡ st.last_fire_at
  unfolding track_window
  track_window-last_fire_at window_stuck_s s now st = ground arith

  -- The first candidate goes out alone.
  pub first_ready :
      (throttle_s window_stuck_s : Real) (st : AlertState floats lower)
      (s : PulseSample floats lower) (now : Real)
      → less (sub now now) throttle_s ≡ true
      → evaluate_alerts floats lower throttle_s window_stuck_s st s now ≡ (
          if less (sub now st.last_fire_at) throttle_s
          then ([], (tracked window_stuck_s st s now).1)
          else (
            take 1 (ready window_stuck_s st s now),
            fired now (ready window_stuck_s st s now) (tracked window_stuck_s st s now).1,
          ))
  unfolding evaluate_alerts rearm
  first_ready throttle_s window_stuck_s st s now h =
      emit_alerts-first throttle_s now (ready window_stuck_s st s now)
        (tracked window_stuck_s st s now).1 h
      ∙ ap
          (λ t. if less (sub now t) throttle_s then ([], (tracked window_stuck_s st s now).1) else (
            take 1 (ready window_stuck_s st s now),
            fired now (ready window_stuck_s st s now) (tracked window_stuck_s st s now).1,
          ))
          (track_window-last_fire_at window_stuck_s s now (rearm floats lower s st))
