-- ===== src/Attention/Budget.antt =====
-- Replies use up a session: without a new hard signal Doll answers a channel a bounded number of
-- times.
use native.Mathlib.Nat.{add-zero}
use doll_os.Prelude.{
  ℕ, ◌+◌, ◌≤◌, ◌<◌, String, ◌≡◌, ◌≢◌, inl, inr, refl, sym, ap, subst, ◌∙◌, Bool-cases, false,
  Option, none, some, List, [], ◌∷◌, ◌==◌, arith, eq_iff, if◌then◌else◌, Option-cases,
}
use doll_os.Prelude.Dict.{get, get-put, get-remove}
use doll_os.Attention.Names.{Unicode}
use doll_os.Attention.{
  Reals, Event, Session, Config, Sessions, l0_signal, continue_session, admit_in, admit, forget,
  replied, note_reply,
}
use doll_os.Attention.Admission.{admit-other, admit-continuation}

-- What happens at the gate: a message, a reply of Doll's, or a channel that is reaped.
pub data Happening (Real : Type 0) : Type 0 where
  message : List (List ℕ) → Event → Real → Happening Real
  reply : String → Happening Real
  reap : String → Happening Real

module _ (u : Unicode) (r : Reals) (cfg : Config u r) where
  open r use {Real}

  unfoldable pub step : Happening Real → Sessions u r → Sessions u r
  step (message aliases e now) ss = (admit u r cfg aliases e now ss).1
  step (reply c) ss = note_reply u r cfg c ss
  step (reap c) ss = forget u r c ss

  unfoldable pub run : List (Happening Real) → Sessions u r → Sessions u r
  run [] ss = ss
  run (h ∷ hs) ss = run hs (step h ss)

  -- Doll's replies on a channel.
  abbrev pub replies : String → List (Happening Real) → ℕ
  replies c [] = 0
  replies c (message aliases e now ∷ hs) = replies c hs
  replies c (reply d ∷ hs) = (if d == c then 1 else 0) + replies c hs
  replies c (reap d ∷ hs) = replies c hs

  -- No message on the channel is a hard signal.
  abbrev pub Tagless : String → List (Happening Real) → Type 0
  Tagless c [] = Unit
  Tagless c (message aliases e now ∷ hs) =
      (e.channel_id ≡ some c → l0_signal u r cfg aliases e ≡ none) × Tagless c hs
  Tagless c (reply d ∷ hs) = Tagless c hs
  Tagless c (reap d ∷ hs) = Tagless c hs

  -- The session is gone, or has counted at least `n` turns and is within its budget from the first.
  abbrev Spent : String → ℕ → Sessions u r → Type 0
  Spent c n ss =
      (s : Session u r)
      → get ss c ≡ some s
      → (n ≤ s.turn_count) × (0 < n → s.turn_count < cfg.max_session_turns)

  Spent-continue :
      (c d : String) (author : Option String) (now : Real) (n : ℕ) (o : Option (Session u r))
      (ss : Sessions u r)
      → get ss d ≡ o
      → Spent c n ss
      → Spent c n (continue_session u r cfg d author now o ss).1
  unfolding continue_session
  Spent-continue c d author now n none ss p h = h
  Spent-continue c d author now n (some t) ss p h = λ s e. ground (
    arith,
    eq_iff c d,
    h s,
    h t,
    get-put ss d c (record t { last_activity = now }),
    get-remove ss d c,
  )

  Spent-message :
      (c : String) (aliases : List (List ℕ)) (e : Event) (now : Real) (n : ℕ) (ss : Sessions u r)
      → (e.channel_id ≡ some c → l0_signal u r cfg aliases e ≡ none)
      → Spent c n ss
      → Spent c n (admit u r cfg aliases e now ss).1
  unfolding admit admit_in
  Spent-message c aliases e now n ss quiet h = elim (Option-cases e.channel_id) [
    | inl p ↦ rw (p, admit) h
    | inr (d, p) ↦ elim (Bool-cases (d == c)) [
      | inl same ↦
          let q : l0_signal u r cfg aliases e ≡ none = quiet (p ∙ ap some ((eq_iff d c).0 same)) in
          rw (p, admit, q, admit_in) (Spent-continue c d e.author_id now n (get ss d) ss refl h)
      | inr other ↦
          let ne : e.channel_id ≢ some c = λ i. ground (arith, eq_iff d c, p, i) in
          λ s i. h s (sym (admit-other u r cfg aliases e now ss c ne) ∙ i)
    ]
  ]

  Spent-reply :
      (c d : String) (n : ℕ) (ss : Sessions u r)
      → Spent c n ss
      → Spent c ((if d == c then 1 else 0) + n) (note_reply u r cfg d ss)
  unfolding note_reply
  Spent-reply c d n ss h = λ s e. elim (Option-cases (get ss d)) [
    | inl p ↦ ground (arith, eq_iff d c, h s, p)
    | inr (t, p) ↦ ground (
      arith,
      eq_iff c d,
      eq_iff d c,
      h s,
      h t,
      get-put ss d c (replied u r cfg t),
      get-remove ss d c,
    )
  ]

  Spent-reap :
      (c d : String) (n : ℕ) (ss : Sessions u r) → Spent c n ss → Spent c n (forget u r d ss)
  unfolding forget
  Spent-reap c d n ss h = λ s e. ground (arith, h s, get-remove ss d c)

  Spent-run :
      (c : String) (hs : List (Happening Real)) (n : ℕ) (ss : Sessions u r)
      → Tagless c hs
      → Spent c n ss
      → Spent c (n + replies c hs) (run hs ss)
  unfolding run step
  Spent-run c [] n ss quiet h = rw (add-zero n) h
  Spent-run c (message aliases e now ∷ hs) n ss quiet h =
      Spent-run c hs n _ quiet.1 (Spent-message c aliases e now n ss quiet.0 h)
  Spent-run c (reply d ∷ hs) n ss quiet h =
      let i = if d == c then 1 else 0 in
      subst (λ m. Spent c m (run hs (note_reply u r cfg d ss))) (omega arith)
        (Spent-run c hs (i + n) _ quiet (Spent-reply c d n ss h))
  Spent-run c (reap d ∷ hs) n ss quiet h = Spent-run c hs n _ quiet (Spent-reap c d n ss h)

  -- Whatever happens at the gate, in any order: once Doll has replied on a channel as often as a
  -- session allows, with no hard signal on the channel all the while, the channel has no session,
  -- and the next message on it without a hard signal is not admitted.
  pub run-disengages :
      (c : String) (hs : List (Happening Real)) (ss : Sessions u r)
      → 0 < cfg.max_session_turns
      → Tagless c hs
      → cfg.max_session_turns ≤ replies c hs
      → (get (run hs ss) c ≡ none)
        × ((aliases : List (List ℕ)) (e : Event) (now : Real)
            → e.channel_id ≡ some c
            → l0_signal u r cfg aliases e ≡ none
            → (admit u r cfg aliases e now (run hs ss)).0.admitted ≡ false)
  run-disengages c hs ss pos quiet many =
      let gone : get (run hs ss) c ≡ none = elim (Option-cases (get (run hs ss) c)) [
        | inl p ↦ p
        | inr (s, p) ↦
            let spent =
              Spent-run c hs 0 ss quiet (λ t e. (omega arith, λ i. absurd (omega arith))) s p in
            absurd (omega (arith, spent))
      ] in
      (
        gone,
        λ aliases e now h g.
            elim (Bool-cases (admit u r cfg aliases e now (run hs ss)).0.admitted) [
              | inl yes_ ↦
                  let (s, p, o) =
                    (admit-continuation u r cfg aliases e now (run hs ss) c h g).0 yes_ in
                  cc
              | inr refused ↦ refused
            ],
      )
