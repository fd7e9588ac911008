-- ===== src/Attention.antt =====
-- src/dollos/mind/attention.py: may a channel message take Doll's attention, and the engagement
-- session that each channel has.
-- Times and windows are Python floats: a type with the operations that the gate uses, `Reals`. An
-- event's keys are a record; its flags are the truth of the dict's values.
pub mod Names
pub mod Admission
pub mod Budget
pub mod Sessions
mod Examples
use doll_os.Prelude.{
  ℕ, suc, ◌+◌, String, Bool, true, false, not, ◌||◌, ◌&&◌, Option, none, some, List, [], ◌∷◌, ◌++◌,
  ◌==◌, leb, if◌then◌else◌, member, any,
}
use doll_os.Prelude.Dict.{Dict, get, put, remove}
use doll_os.Attention.Names.{Unicode, name_match}

pub record Reals : Type 1 where
  pub Real : Type 0
  pub sub : Real → Real → Real
  pub mul : Real → Real → Real
  pub less : Real → Real → Bool
  pub at_least : Real → Real → Bool

pub record Event : Type 0 where
  pub channel_id : Option String
  pub author_id : Option String
  pub content : List ℕ
  pub is_dm : Bool
  pub mentioned : Bool
  pub reply_to_bot : Bool

pub data Reason : Type 0 where
  l0_dm l0_mention l0_name l0_reply l0_always l1_continuation not_admitted : Reason

pub record AdmitDecision : Type 0 where
  pub admitted : Bool
  pub reason : Reason

-- The test `author in participants`; an author may be `None`.
unfoldable pub same_author : Option String → Option String → Bool
same_author none none = true
same_author none (some b) = false
same_author (some a) none = false
same_author (some a) (some b) = a == b

unfoldable pub participates : Option String → List (Option String) → Bool
unfolding same_author
participates a ps = any (same_author a) ps

-- `participants.add(author)`
unfoldable pub add_participant : Option String → List (Option String) → List (Option String)
add_participant a ps = if participates a ps then ps else ps ++ a ∷ []

module _ (u : Unicode) (r : Reals) where
  open r use {Real, sub, mul, less, at_least}

  pub record Session : Type 0 where
    pub channel : String
    pub participants : List (Option String)
    pub last_activity : Real
    pub turn_count : ℕ
    pub window_s : Real

  pub record Config : Type 0 where
    pub always_wake : List String
    pub max_session_turns : ℕ
    pub window_base_s : Real
    pub window_decay : Real
    pub debounce_engaged_s : Real
    pub debounce_cold_s : Real

  abbrev pub Sessions : Type 0
  Sessions = Dict Session

  -- `event.get("channel_id") in self._always_wake`
  abbrev pub in_always_wake : Option String → List String → Bool
  in_always_wake none cs = false
  in_always_wake (some c) cs = member c cs

  -- The aliases are what the provider returns at this message.
  unfoldable pub l0_signal : Config → List (List ℕ) → Event → Option Reason
  l0_signal cfg aliases e =
      if e.is_dm
      then some l0_dm
      else if e.mentioned
      then some l0_mention
      else if name_match u e.content aliases
      then some l0_name
      else if e.reply_to_bot
      then some l0_reply
      else if in_always_wake e.channel_id cfg.always_wake
      then some l0_always
      else none

  abbrev pub refuse : AdmitDecision
  refuse = record { admitted = false; reason = not_admitted }

  -- The L0 branch: a new session, or the present one with its budget and window reset.
  unfoldable pub open_session : Config → String → Option String → Real → Option Session → Session
  unfolding add_participant
  open_session cfg c author now none = record {
    channel = c;
    participants = author ∷ [];
    last_activity = now;
    turn_count = 0;
    window_s = cfg.window_base_s;
  }
  open_session cfg c author now (some s) = record s {
    participants = add_participant author s.participants;
    last_activity = now;
    turn_count = 0;
    window_s = cfg.window_base_s;
  }

  -- The L1 branch, on the channel's session.
  unfoldable pub continue_session :
      Config → String → Option String → Real → Option Session → Sessions → AdmitDecision × Sessions
  continue_session cfg c author now none ss = (refuse, ss)
  continue_session cfg c author now (some s) ss =
      if at_least (sub now s.last_activity) s.window_s || leb cfg.max_session_turns s.turn_count
      then (refuse, remove ss c)
      else if not (participates author s.participants)
      then (refuse, ss)
      else (
        record { admitted = true; reason = l1_continuation },
        put ss c (record s { last_activity = now }),
      )

  unfoldable pub admit_in :
      Config → Option Reason → String → Option String → Real → Sessions → AdmitDecision × Sessions
  unfolding open_session continue_session
  admit_in cfg (some sig) c author now ss = (
    record { admitted = true; reason = sig },
    put ss c (open_session cfg c author now (get ss c)),
  )
  admit_in cfg none c author now ss = continue_session cfg c author now (get ss c) ss

  unfoldable pub admit : Config → List (List ℕ) → Event → Real → Sessions → AdmitDecision × Sessions
  unfolding admit_in l0_signal
  admit cfg aliases e now ss = elim e.channel_id [
    | none ↦ (refuse, ss)
    | some c ↦ admit_in cfg (l0_signal cfg aliases e) c e.author_id now ss
  ]

  unfoldable pub forget : String → Sessions → Sessions
  forget c ss = remove ss c

  unfoldable pub replied : Config → Session → Session
  replied cfg s = record s {
    turn_count = s.turn_count + 1;
    window_s = mul s.window_s cfg.window_decay;
  }

  unfoldable pub note_reply : Config → String → Sessions → Sessions
  unfolding replied
  note_reply cfg c ss = elim (get ss c) [
    | none ↦ ss
    | some s ↦
        if leb cfg.max_session_turns (s.turn_count + 1)
        then remove ss c
        else put ss c (replied cfg s)
  ]

  unfoldable pub is_engaged : String → Real → Sessions → Bool
  is_engaged c now ss = elim (get ss c) [
    | none ↦ false
    | some s ↦ less (sub now s.last_activity) s.window_s
  ]

  unfoldable pub window_for : Config → String → Real → Bool → Bool → Sessions → Real
  unfolding is_engaged
  window_for cfg c now dm author_is_owner ss =
      if dm || author_is_owner || is_engaged c now ss
      then cfg.debounce_engaged_s
      else cfg.debounce_cold_s
