-- ===== src/Attention/Sessions.antt =====
-- The invariant of the engagement sessions.
use native.Mathlib.Numerals.{add-one}
use doll_os.Prelude.{
  ℕ, zero, suc, ◌+◌, ◌<◌, String, ◌≡◌, inl, inr, refl, sym, ap, subst, ◌||◌, Option, none, some,
  List, [], ◌∷◌, ◌==◌, arith, eq_iff, leb, Option-cases, Bool-cases,
}
use doll_os.Prelude.Dict.{get, put, remove, get-put, get-remove}
use doll_os.Attention.Names.{Unicode}
use doll_os.Attention.{
  Reals, participates, Event, Session, Config, Sessions, l0_signal, open_session, continue_session,
  admit_in, admit, forget, replied, note_reply,
}
use doll_os.Attention.Budget.{Happening, message, reply, reap, step, run}

module _ (u : Unicode) (r : Reals) (cfg : Config u r) where
  open r use {Real, sub, mul, at_least}

  -- The base window after so many replies.
  pub decayed : ℕ → Real
  decayed zero = cfg.window_base_s
  decayed (suc n) = mul (decayed n) cfg.window_decay

  -- What holds of the session of channel `c`.
  pub record IsSession (c : String) (s : Session u r) : Type 0 where
    pub keyed : s.channel ≡ c
    pub in_budget : s.turn_count < cfg.max_session_turns
    pub window : s.window_s ≡ decayed s.turn_count

  abbrev pub Valid : Sessions u r → Type 0
  Valid ss = (c : String) (s : Session u r) → get ss c ≡ some s → IsSession c s

  put-Valid :
      (c : String) (s : Session u r) (ss : Sessions u r)
      → IsSession c s
      → Valid ss
      → Valid (put ss c s)
  put-Valid c s ss new h = λ d t e. elim (Bool-cases (d == c)) [
    | inl same ↦
        let p : c ≡ d = sym ((eq_iff d c).0 same) in
        let q : s ≡ t = ground (arith, get-put ss c d s) in
        subst (λ x. IsSession x t) p (subst (IsSession c) q new)
    | inr other ↦ h d t (ground (arith, get-put ss c d s))
  ]

  remove-Valid : (c : String) (ss : Sessions u r) → Valid ss → Valid (remove ss c)
  remove-Valid c ss h = λ d t e. h d t (ground (arith, get-remove ss c d))

  open_session-IsSession :
      (c : String) (author : Option String) (now : Real) (ss : Sessions u r)
      → 0 < cfg.max_session_turns
      → Valid ss
      → IsSession c (open_session u r cfg c author now (get ss c))
  unfolding open_session decayed
  open_session-IsSession c author now ss pos h = elim (Option-cases (get ss c)) [
    | inl p ↦ rw (p, open_session) (record { keyed = refl; in_budget = pos; window = refl })
    | inr (s, p) ↦
        rw (p, open_session) (record { keyed = (h c s p).keyed; in_budget = pos; window = refl })
  ]

  continue_session-Valid :
      (c : String) (author : Option String) (now : Real) (o : Option (Session u r))
      (ss : Sessions u r)
      → get ss c ≡ o
      → Valid ss
      → Valid (continue_session u r cfg c author now o ss).1
  unfolding continue_session
  continue_session-Valid c author now none ss p h = h
  continue_session-Valid c author now (some s) ss p h =
      elim (Bool-cases
        (at_least (sub now s.last_activity) s.window_s || leb cfg.max_session_turns s.turn_count)) [
          | inl over ↦ rw over (remove-Valid c ss h)
          | inr live ↦ elim (Bool-cases (participates author s.participants)) [
            | inl inside ↦
                let v = h c s p in
                let new = record s { last_activity = now } in
                rw (live, inside)
                  (put-Valid c new ss
                    (record { keyed = v.keyed; in_budget = v.in_budget; window = v.window }) h)
            | inr outside ↦ rw (live, outside) h
          ]
        ]

  replied-IsSession :
      (c : String) (s : Session u r)
      → s.turn_count + 1 < cfg.max_session_turns
      → IsSession c s
      → IsSession c (replied u r cfg s)
  unfolding replied decayed
  replied-IsSession c s room v = record {
    keyed = v.keyed;
    in_budget = room;
    window = rw add-one (ap (λ w. mul w cfg.window_decay) v.window);
  }

  note_reply-Valid : (c : String) (ss : Sessions u r) → Valid ss → Valid (note_reply u r cfg c ss)
  unfolding note_reply
  note_reply-Valid c ss h = elim (Option-cases (get ss c)) [
    | inl p ↦ rw (p, note_reply) h
    | inr (s, p) ↦ elim (Bool-cases (leb cfg.max_session_turns (s.turn_count + 1))) [
      | inl over ↦ rw (p, note_reply, over) (remove-Valid c ss h)
      | inr room ↦
          rw (p, note_reply, room)
            (put-Valid c (replied u r cfg s) ss (replied-IsSession c s (ground arith) (h c s p)) h)
    ]
  ]

  admit-Valid :
      (aliases : List (List ℕ)) (e : Event) (now : Real) (ss : Sessions u r)
      → 0 < cfg.max_session_turns
      → Valid ss
      → Valid (admit u r cfg aliases e now ss).1
  unfolding admit admit_in
  admit-Valid aliases e now ss pos h = elim (Option-cases e.channel_id) [
    | inl p ↦ rw (p, admit) h
    | inr (c, p) ↦ elim (Option-cases (l0_signal u r cfg aliases e)) [
      | inl q ↦
          rw (p, admit, q, admit_in) (continue_session-Valid c e.author_id now (get ss c) ss refl h)
      | inr (sig, q) ↦
          rw (p, admit, q, admit_in)
            (put-Valid c (open_session u r cfg c e.author_id now (get ss c)) ss
              (open_session-IsSession c e.author_id now ss pos h) h)
    ]
  ]

  -- Where a session may have a turn at all, whatever happens at the gate keeps every session filed
  -- under its own channel, below the number of turns it may have, and with the window that the
  -- base window has decayed to in that many turns.
  pub run-Valid :
      (hs : List (Happening Real)) (ss : Sessions u r)
      → 0 < cfg.max_session_turns
      → Valid ss
      → Valid (run u r cfg hs ss)
  unfolding run step forget
  run-Valid [] ss pos h = h
  run-Valid (message aliases e now ∷ hs) ss pos h =
      run-Valid hs _ pos (admit-Valid aliases e now ss pos h)
  run-Valid (reply c ∷ hs) ss pos h = run-Valid hs _ pos (note_reply-Valid c ss h)
  run-Valid (reap c ∷ hs) ss pos h = run-Valid hs _ pos (remove-Valid c ss h)

  pub Valid-empty : Valid []
  unfolding get
  Valid-empty c s e = cc
