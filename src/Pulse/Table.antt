-- ===== src/Pulse/Table.antt =====
-- One evaluation against a table of what it does: at most one alert, none before the throttle has run
-- out, and none is lost by it.
use doll_os.Prelude.{
  ◌≡◌, refl, ap, sym, subst, ◌++◌, ◌∙◌, Bool, true, String, List, [], ◌∷◌, take, if◌then◌else◌,
  Bool-cases, inl, inr, false, ◌&&◌, ◌||◌, not, Option, none, some, eq_iff, Option-cases,
}
use doll_os.Prelude.Floats.{Floats}
use doll_os.Pulse.{
  same_text, battery_bad, gpu_bad, hottest, present, when, PulseSample, Alert, battery_critical,
  gpu_hot, window_stuck, AlertState, track_window, rearm, candidates, disarm, evaluate_alerts,
}
use doll_os.Pulse.Policy.{fired, tracked, first_ready}

module _ (floats : Floats) (lower : String → String) where
  open floats use {Real, number, sub, less, at_least}

  -- The window is the one of the last evaluation.
  abbrev pub same_window : AlertState floats lower → PulseSample floats lower → Bool
  same_window st s = elim s.active_window [ none ↦ false | some w ↦ same_text st.stuck_window w ]

  -- Since when the owner sits before the window.
  abbrev pub since : AlertState floats lower → PulseSample floats lower → Real → Option Real
  since st s now = elim s.active_window [
    | none ↦ none
    | some w ↦
        if present floats lower s
        then (if same_text st.stuck_window w
            then some (elim st.stuck_since [ none ↦ now | some t ↦ t ])
            else some now)
        else none
  ]

  abbrev lasts : Real → Real → Option Real → Bool
  lasts window_stuck_s now none = false
  lasts window_stuck_s now (some t) = at_least (sub now t) window_stuck_s

  -- He has sat before one window for as long as the limit says.
  abbrev pub stuck_bad : Real → AlertState floats lower → PulseSample floats lower → Real → Bool
  stuck_bad window_stuck_s st s now =
      (same_window st s && present floats lower s) && lasts window_stuck_s now st.stuck_since

  -- The state before an alert goes out: an arm is given back where its condition is over.
  abbrev pub rested :
      AlertState floats lower → PulseSample floats lower → Real → AlertState floats lower
  rested st s now = record {
    battery_armed = st.battery_armed || not (battery_bad floats lower s);
    gpu_armed = st.gpu_armed || not (gpu_bad floats lower s);
    stuck_window = s.active_window;
    stuck_since = since st s now;
    stuck_armed = not (same_window st s && present floats lower s) || st.stuck_armed;
    last_fire_at = st.last_fire_at;
  }

  -- The first rule that applies, and the arm that it takes.
  unfoldable pub pick :
      Real
      → PulseSample floats lower
      → AlertState floats lower
      → (battery gpu window : Bool) → List (Alert floats lower) × AlertState floats lower
  pick now s kept true gpu window = (
    battery_critical s.battery_pct ∷ [],
    record kept { battery_armed = false; last_fire_at = now },
  )
  pick now s kept false true window =
      (gpu_hot (hottest floats lower s) ∷ [], record kept { gpu_armed = false; last_fire_at = now })
  pick now s kept false false true = (
    window_stuck kept.stuck_window kept.stuck_since ∷ [],
    record kept { stuck_armed = false; last_fire_at = now },
  )
  pick now s kept false false false = ([], kept)

  -- What an evaluation does: a rule applies where its condition is bad and it was armed.
  unfoldable pub verdict :
      Real
      → Real
      → AlertState floats lower
      → PulseSample floats lower
      → Real
      → List (Alert floats lower) × AlertState floats lower
  unfolding pick
  verdict throttle_s window_stuck_s st s now =
      if less (sub now st.last_fire_at) throttle_s
      then ([], rested st s now)
      else pick now s (rested st s now) (battery_bad floats lower s && st.battery_armed)
          (gpu_bad floats lower s && st.gpu_armed)
          (stuck_bad window_stuck_s st s now && st.stuck_armed)

  same_text-eq : (o : Option String) (w : String) → same_text o w ≡ true → o ≡ some w
  same_text-eq none w h = cc
  same_text-eq (some t) w h = ap some ((eq_iff t w).0 h)

  tracked-rested :
      (window_stuck_s : Real) (st : AlertState floats lower) (s : PulseSample floats lower)
      (now : Real)
      → tracked floats lower window_stuck_s st s now
        ≡ (stuck_bad window_stuck_s st s now, rested st s now)
  unfolding track_window rearm
  tracked-rested window_stuck_s st s now = elim (Option-cases s.active_window) [
    | inl n ↦ rw n refl
    | inr (w, y) ↦ elim (Bool-cases (same_text st.stuck_window w)) [
      | inr other ↦ elim (Bool-cases (present floats lower s)) [
        | inl here ↦ rw (y, other, here) refl
        | inr gone ↦ rw (y, other, gone) refl
      ]
      | inl same ↦ elim (Bool-cases (present floats lower s)) [
        | inr gone ↦ rw (y, same, gone, same_text-eq st.stuck_window w same) refl
        | inl here ↦ elim (Option-cases st.stuck_since) [
          | inl m ↦ rw (y, same, here, m, same_text-eq st.stuck_window w same) refl
          | inr (t, m) ↦ rw (y, same, here, m, same_text-eq st.stuck_window w same) (rw m refl)
        ]
      ]
    ]
  ]

  -- An arm that is given back is that of a condition that is over.
  rearmed : (bad armed : Bool) → (bad && (armed || not bad)) ≡ (bad && armed)
  rearmed true true = refl
  rearmed true false = refl
  rearmed false true = refl
  rearmed false false = refl

  stuck_rearmed :
      (sat long armed : Bool) → ((sat && long) && (not sat || armed)) ≡ ((sat && long) && armed)
  stuck_rearmed true long armed = refl
  stuck_rearmed false long armed = refl

  -- The alerts and the state, by the candidates and the state that they are taken in.
  abbrev gated :
      Real
      → Real
      → AlertState floats lower
      → List (Alert floats lower)
      → AlertState floats lower
      → List (Alert floats lower) × AlertState floats lower
  gated throttle_s now st alerts kept =
      if less (sub now st.last_fire_at) throttle_s
      then ([], kept)
      else (take 1 alerts, fired floats lower now alerts kept)

  pick-first :
      (now : Real) (s : PulseSample floats lower) (kept : AlertState floats lower) (b g w : Bool)
      → (let alerts : List (Alert floats lower) =
            when floats lower b (battery_critical s.battery_pct)
            ++ (when floats lower g (gpu_hot (hottest floats lower s))
                ++ when floats lower w (window_stuck kept.stuck_window kept.stuck_since)) in
          let r : List (Alert floats lower) × AlertState floats lower =
            (take 1 alerts, fired floats lower now alerts kept) in
          r)
        ≡ pick now s kept b g w
  unfolding pick disarm
  pick-first now s kept true g w = refl
  pick-first now s kept false true w = refl
  pick-first now s kept false false true = refl
  pick-first now s kept false false false = refl

  first_candidate :
      (throttle_s window_stuck_s : Real) (st : AlertState floats lower)
      (s : PulseSample floats lower) (now : Real)
      → gated throttle_s now st
          (candidates floats lower s (stuck_bad window_stuck_s st s now) (rested st s now))
          (rested st s now)
        ≡ verdict throttle_s window_stuck_s st s now
  unfolding candidates verdict
  first_candidate throttle_s window_stuck_s st s now =
      rw
        (
          rearmed (battery_bad floats lower s) st.battery_armed,
          rearmed (gpu_bad floats lower s) st.gpu_armed,
          stuck_rearmed (same_window st s && present floats lower s)
              (lasts window_stuck_s now st.stuck_since) st.stuck_armed,
        )
        (ap
          (λ (r : List (Alert floats lower) × AlertState floats lower).
            if less (sub now st.last_fire_at) throttle_s then ([], rested st s now) else r)
          (pick-first now s (rested st s now) (battery_bad floats lower s && st.battery_armed)
            (gpu_bad floats lower s && st.gpu_armed)
            (stuck_bad window_stuck_s st s now && st.stuck_armed)))

  -- With a throttle that no evaluation outruns at once, an evaluation is the table: nothing goes out
  -- while the throttle since the last alert runs, and then the arms stand; behind it goes out the first
  -- alone, in the order battery, GPU, window, whose condition is bad and which was armed, and only its
  -- arm is taken. An arm is given back where its condition is over; the window is stuck where it is
  -- the same as before, the owner is there and the streak that the state keeps is as long as the limit.
  pub evaluate_alerts-verdict :
      (throttle_s window_stuck_s : Real) (st : AlertState floats lower)
      (s : PulseSample floats lower) (now : Real)
      → less (sub now now) throttle_s ≡ true
      → evaluate_alerts floats lower throttle_s window_stuck_s st s now
        ≡ verdict throttle_s window_stuck_s st s now
  evaluate_alerts-verdict throttle_s window_stuck_s st s now h =
      first_ready floats lower throttle_s window_stuck_s st s now h
      ∙ subst
          (λ (t : Bool × AlertState floats lower).
            gated throttle_s now st (candidates floats lower s t.0 t.1) t.1
            ≡ verdict throttle_s window_stuck_s st s now)
          (sym (tracked-rested window_stuck_s st s now))
          (first_candidate throttle_s window_stuck_s st s now)
