-- ===== src/Evolution/Slot.antt =====
-- The pending slot of src/dollos/mind/evolution.py and its pure transitions.
use doll_os.Prelude.{ℕ, ◌+◌, Bool, true, false, Option, none, some, []}
use doll_os.Prelude.Floats.{Floats, min_of}
use doll_os.Evolution.Texts.{Text}

abbrev pub counter_round_cap : ℕ
counter_round_cap = 2

abbrev pub verdict_errors_bound : ℕ
verdict_errors_bound = 3

pub data SlotKind : Type 0 where
  keeper counter external : SlotKind

pub data SlotStatus : Type 0 where
  awaiting_skeptic awaiting_doll : SlotStatus

-- `slot.status == "awaiting_doll"`
abbrev pub waits_for_doll : SlotStatus → Bool
waits_for_doll awaiting_skeptic = false
waits_for_doll awaiting_doll = true

-- The proposal that a counter replaces.
pub record Proposal : Type 0 where
  pub candidate : Text
  pub rationale : Option Text
  pub kind : SlotKind

-- The outcomes that `next_interval_days` tells apart.
pub data Outcome : Type 0 where
  adopt no_change kill reject expire : Outcome

module _ (floats : Floats) where
  open floats use {Real, number, mul}

  pub record PendingSlot : Type 0 where
    pub kind : SlotKind
    pub status : SlotStatus
    pub candidate : Text
    pub created_ts : Real
    pub rationale : Option Text
    pub fallback : Option Proposal
    pub counter_round : ℕ
    pub surfaced_count : ℕ
    pub verdict_errors : ℕ
    pub hwm_before : Option ℕ
    pub notice : Option Text
    pub last_error_ts : Option Real

  unfoldable pub make_keeper_slot : Text → Option Text → Option ℕ → Real → PendingSlot
  make_keeper_slot candidate rationale hwm_before created_ts = record {
    kind = keeper;
    status = awaiting_doll;
    candidate = candidate;
    created_ts = created_ts;
    rationale = rationale;
    fallback = none;
    counter_round = 0;
    surfaced_count = 0;
    verdict_errors = 0;
    hwm_before = hwm_before;
    notice = none;
    last_error_ts = none;
  }

  unfoldable pub make_external_slot : Text → Real → PendingSlot
  make_external_slot candidate created_ts = record {
    kind = external;
    status = awaiting_skeptic;
    candidate = candidate;
    created_ts = created_ts;
    rationale = none;
    fallback = none;
    counter_round = 0;
    surfaced_count = 0;
    verdict_errors = 0;
    hwm_before = none;
    notice = none;
    last_error_ts = none;
  }

  unfoldable pub mark_awaiting_doll : PendingSlot → PendingSlot
  mark_awaiting_doll s = record s { status = awaiting_doll }

  unfoldable pub to_counter : Text → PendingSlot → PendingSlot
  to_counter new_text s = record {
    kind = counter;
    status = awaiting_skeptic;
    candidate = new_text;
    created_ts = s.created_ts;
    rationale = none;
    fallback = some (record { candidate = s.candidate; rationale = s.rationale; kind = s.kind });
    counter_round = s.counter_round + 1;
    surfaced_count = 0;
    verdict_errors = 0;
    hwm_before = s.hwm_before;
    notice = none;
    last_error_ts = none;
  }

  -- `slot.fallback or {}` with the defaults of its `get`s.
  abbrev pub fallback_of : Option Proposal → Proposal
  fallback_of none = record { candidate = []; rationale = none; kind = keeper }
  fallback_of (some p) = p

  unfoldable pub revert_to_fallback : Text → PendingSlot → PendingSlot
  revert_to_fallback reason s =
      let fb = fallback_of s.fallback in
      record {
        kind = fb.kind;
        status = awaiting_doll;
        candidate = fb.candidate;
        created_ts = s.created_ts;
        rationale = fb.rationale;
        fallback = none;
        counter_round = s.counter_round;
        surfaced_count = 0;
        verdict_errors = 0;
        hwm_before = s.hwm_before;
        notice = some reason;
        last_error_ts = none;
      }

  -- What a surfacing leaves in the slot.
  unfoldable pub surfaced_slot : PendingSlot → PendingSlot
  surfaced_slot s = record s { surfaced_count = s.surfaced_count + 1; notice = none }

  -- What an error of the skeptic leaves in the slot.
  unfoldable pub errored_slot : Real → PendingSlot → PendingSlot
  errored_slot now s = record s { verdict_errors = s.verdict_errors + 1; last_error_ts = some now }

  unfoldable pub next_interval_days : Real → Outcome → Real → Real → Real
  next_interval_days current adopt base cap = base
  next_interval_days current no_change base cap = min_of floats (mul current (number 2)) cap
  next_interval_days current kill base cap = min_of floats (mul current (number 2)) cap
  next_interval_days current reject base cap = min_of floats (mul current (number 2)) cap
  next_interval_days current expire base cap = current
