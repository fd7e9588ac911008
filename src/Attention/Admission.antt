-- ===== src/Attention/Admission.antt =====
-- When a message is admitted, and what admission does to the sessions.
use doll_os.Prelude.{
  ℕ, ◌<◌, String, ◌≡◌, ◌≢◌, ◌↔◌, inl, inr, refl, ap, subst, ◌∙◌, true, false, ◌||◌, Option, none,
  some, List, [], ◌∷◌, ◌++◌, arith, eq_iff, Option-cases,
}
use doll_os.Prelude.Dict.{get, get-put_self, get-put_ne, get-remove_ne}
use doll_os.Attention.Names.{Unicode}
use doll_os.Attention.{
  Reals, Event, Reason, same_author, participates, add_participant, Session, Config, Sessions,
  l0_signal, open_session, continue_session, admit_in, admit,
}

same_author_refl : (a : Option String) → same_author a a ≡ true
unfolding same_author
same_author_refl none = refl
same_author_refl (some a) = (eq_iff a a).1 refl

participates-append :
    (a b : Option String) (ps : List (Option String))
    → participates a (ps ++ b ∷ []) ≡ participates a ps || same_author a b
unfolding participates
participates-append a b [] = ground arith
participates-append a b (p ∷ ps) = ground (arith, participates-append a b ps)

-- A set keeps its members when one is added, and has the added one.
participates-add :
    (a b : Option String) (ps : List (Option String))
    → (participates a (add_participant a ps) ≡ true)
      × (participates b ps ≡ true → participates b (add_participant a ps) ≡ true)
unfolding add_participant
participates-add a b ps =
    ground (arith, participates-append a a ps, participates-append b a ps, same_author_refl a)

module _ (u : Unicode) (r : Reals) where
  open r use {Real, sub, less, at_least}

  -- The session that a mention leaves on its channel.
  pub record IsFresh (cfg : Config u r) (author : Option String) (now : Real)
      (old : Option (Session u r)) (s : Session u r) : Type 0 where
    pub no_turns : s.turn_count ≡ 0
    pub whole_window : s.window_s ≡ cfg.window_base_s
    pub just_active : s.last_activity ≡ now
    pub author_in : participates author s.participants ≡ true
    pub others_stay :
        (a : Option String) (before : Session u r)
        → old ≡ some before
        → participates a before.participants ≡ true
        → participates a s.participants ≡ true

  open_session-IsFresh :
      (cfg : Config u r) (c : String) (author : Option String) (now : Real)
      (old : Option (Session u r))
      → IsFresh cfg author now old (open_session u r cfg c author now old)
  unfolding open_session participates
  open_session-IsFresh cfg c author now none = record {
    no_turns = refl;
    whole_window = refl;
    just_active = refl;
    author_in = rw (same_author_refl author) refl;
    others_stay = λ a s e h. cc;
  }
  open_session-IsFresh cfg c author now (some s) = record {
    no_turns = refl;
    whole_window = refl;
    just_active = refl;
    author_in = (participates-add author author s.participants).0;
    others_stay = λ a t e h. (participates-add author a s.participants).1 (ground (arith, e, h));
  }

  -- A message that is a hard signal (a direct message, a mention, a name, a reply or a channel that
  -- always wakes her) is admitted for that reason, and leaves its channel with a session whose
  -- turns and window are fresh, that has its author, and that has lost none of its participants.
  pub admit-signal :
      (cfg : Config u r) (aliases : List (List ℕ)) (e : Event) (now : Real) (ss : Sessions u r)
      (c : String) (sig : Reason)
      → e.channel_id ≡ some c
      → l0_signal u r cfg aliases e ≡ some sig
      → ((admit u r cfg aliases e now ss).0 ≡ record { admitted = true; reason = sig })
        × ((s : Session u r) × (get (admit u r cfg aliases e now ss).1 c ≡ some s)
            × IsFresh cfg e.author_id now (get ss c) s)
  unfolding admit admit_in
  admit-signal cfg aliases e now ss c sig h g =
      rw (h, admit, g, admit_in)
        (
          refl,
          (
            open_session u r cfg c e.author_id now (get ss c),
            get-put_self ss c _,
            open_session-IsFresh cfg c e.author_id now (get ss c),
          ),
        )

  continue_session-other :
      (cfg : Config u r) (c : String) (author : Option String) (now : Real)
      (o : Option (Session u r)) (ss : Sessions u r) (j : String)
      → c ≢ j
      → get (continue_session u r cfg c author now o ss).1 j ≡ get ss j
  unfolding continue_session
  continue_session-other cfg c author now none ss j ne = refl
  continue_session-other cfg c author now (some s) ss j ne =
      ground
        (arith, get-put_ne ss c j (record s { last_activity = now }) ne, get-remove_ne ss c j ne)

  admit_in-other :
      (cfg : Config u r) (sig : Option Reason) (c : String) (author : Option String) (now : Real)
      (ss : Sessions u r) (j : String)
      → c ≢ j
      → get (admit_in u r cfg sig c author now ss).1 j ≡ get ss j
  unfolding admit_in
  admit_in-other cfg (some sig) c author now ss j ne = get-put_ne ss c j _ ne
  admit_in-other cfg none c author now ss j ne =
      continue_session-other cfg c author now (get ss c) ss j ne

  -- A message touches only the session of its own channel, and no session if it names no channel.
  pub admit-other :
      (cfg : Config u r) (aliases : List (List ℕ)) (e : Event) (now : Real) (ss : Sessions u r)
      (j : String)
      → e.channel_id ≢ some j
      → get (admit u r cfg aliases e now ss).1 j ≡ get ss j
  unfolding admit
  admit-other cfg aliases e now ss j ne = elim (Option-cases e.channel_id) [
    | inl h ↦ rw (h, admit) refl
    | inr (c, h) ↦
        rw (h, admit)
          (admit_in-other cfg (l0_signal u r cfg aliases e) c e.author_id now ss j
            (λ p. ne (h ∙ ap some p)))
  ]

  -- A session that a message without a tag may continue.
  pub record IsOpen (cfg : Config u r) (author : Option String) (now : Real) (s : Session u r)
      : Type 0 where
    pub in_window : at_least (sub now s.last_activity) s.window_s ≡ false
    pub in_budget : s.turn_count < cfg.max_session_turns
    pub author_in : participates author s.participants ≡ true

  open_admitted :
      (cfg : Config u r) (c : String) (author : Option String) (now : Real) (s : Session u r)
      (ss : Sessions u r)
      → IsOpen cfg author now s
      → (continue_session u r cfg c author now (some s) ss).0.admitted ≡ true
  unfolding continue_session
  open_admitted cfg c author now s ss o = ground arith

  continue_session-admitted :
      (cfg : Config u r) (c : String) (author : Option String) (now : Real)
      (o : Option (Session u r)) (ss : Sessions u r)
      → ((continue_session u r cfg c author now o ss).0.admitted ≡ true)
        ↔ ((s : Session u r) × (o ≡ some s) × IsOpen cfg author now s)
  unfolding continue_session
  continue_session-admitted cfg c author now none ss = (λ h. cc, λ h. cc (h.1))
  continue_session-admitted cfg c author now (some s) ss = (
    λ h. (
      s,
      refl,
      record { in_window = ground arith; in_budget = ground arith; author_in = ground arith },
    ),
    λ h.
        let (t, e, o) = h in
        let p : t ≡ s = cc in
        open_admitted cfg c author now s ss (subst (IsOpen cfg author now) p o),
  )

  -- A message without a tag is admitted exactly if its channel has a session whose window has not
  -- passed and whose turns are not used up, and that has the author among its participants.
  pub admit-continuation :
      (cfg : Config u r) (aliases : List (List ℕ)) (e : Event) (now : Real) (ss : Sessions u r)
      (c : String)
      → e.channel_id ≡ some c
      → l0_signal u r cfg aliases e ≡ none
      → ((admit u r cfg aliases e now ss).0.admitted ≡ true)
        ↔ ((s : Session u r) × (get ss c ≡ some s) × IsOpen cfg e.author_id now s)
  unfolding admit admit_in
  admit-continuation cfg aliases e now ss c h g =
      rw (h, admit, g, admit_in) (continue_session-admitted cfg c e.author_id now (get ss c) ss)
