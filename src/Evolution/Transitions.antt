-- ===== src/Evolution/Transitions.antt =====
-- The pure transitions of the slot keep it good.
use doll_os.Prelude.{ℕ, ◌≡◌, refl, false, Option, some, arith, sym, subst, leb}
use doll_os.Prelude.Floats.{Floats}
use doll_os.Evolution.Texts.{Text}
use doll_os.Evolution.Slot.{
  PendingSlot, Proposal, awaiting_doll, make_keeper_slot, make_external_slot, mark_awaiting_doll,
  to_counter, revert_to_fallback, surfaced_slot, errored_slot, fallback_of, verdict_errors_bound,
  counter_round_cap,
}
use doll_os.Evolution.Sanction.{SlotOk}

module _ (floats : Floats) (Vouched : Text → Type 0) where
  open floats use {Real}

  pub surfaced-Ok :
      (s : PendingSlot floats)
      → SlotOk floats Vouched s
      → SlotOk floats Vouched (surfaced_slot floats s)
  unfolding surfaced_slot
  surfaced-Ok s so = record {
    reviewed = so.reviewed;
    returns = so.returns;
    rounds = so.rounds;
    errors = so.errors;
  }

  pub marked-Ok :
      (s : PendingSlot floats)
      → SlotOk floats Vouched s
      → Vouched s.candidate
      → SlotOk floats Vouched (mark_awaiting_doll floats s)
  unfolding mark_awaiting_doll
  marked-Ok s so v = record {
    reviewed = λ e. v;
    returns = λ e. absurd (ground (arith, e));
    rounds = so.rounds;
    errors = so.errors;
  }

  pub errored-Ok :
      (now : Real) (s : PendingSlot floats)
      → SlotOk floats Vouched s
      → leb verdict_errors_bound (errored_slot floats now s).verdict_errors ≡ false
      → SlotOk floats Vouched (errored_slot floats now s)
  unfolding errored_slot
  errored-Ok now s so e = record {
    reviewed = so.reviewed;
    returns = so.returns;
    rounds = so.rounds;
    errors = ground (arith, e);
  }

  pub reverted-Ok :
      (reason : Text) (s : PendingSlot floats)
      → SlotOk floats Vouched s
      → (p : Proposal) × (s.fallback ≡ some p) × Vouched p.candidate
      → SlotOk floats Vouched (revert_to_fallback floats reason s)
  unfolding revert_to_fallback
  reverted-Ok reason s so (p, e, v) = record {
    reviewed = λ d. subst (λ o. Vouched (fallback_of floats o).candidate) (sym e) v;
    returns = λ d. absurd (ground (arith, d));
    rounds = so.rounds;
    errors = omega arith;
  }

  -- The bounds of a fresh external slot.
  pub external-Ok :
      (text : Text) (now : Real) → SlotOk floats Vouched (make_external_slot floats text now)
  unfolding make_external_slot
  external-Ok text now = record {
    reviewed = λ e. absurd (ground (arith, e));
    returns = λ d e. absurd (ground (arith, e));
    rounds = omega arith;
    errors = omega arith;
  }

  pub keeper-Ok :
      (text : Text) (rationale : Option Text) (hwm : Option ℕ) (now : Real)
      → Vouched text
      → SlotOk floats Vouched (make_keeper_slot floats text rationale hwm now)
  unfolding make_keeper_slot
  keeper-Ok text rationale hwm now v = record {
    reviewed = λ e. v;
    returns = λ e. absurd (ground (arith, e));
    rounds = omega arith;
    errors = omega arith;
  }

  pub counter-Ok :
      (text : Text) (s : PendingSlot floats)
      → SlotOk floats Vouched s
      → s.status ≡ awaiting_doll
      → leb counter_round_cap s.counter_round ≡ false
      → SlotOk floats Vouched (to_counter floats text s)
  unfolding to_counter
  counter-Ok text s so d e = record {
    reviewed = λ e. absurd (ground (arith, e));
    returns = λ a k. (
      record { candidate = s.candidate; rationale = s.rationale; kind = s.kind },
      refl,
      so.reviewed d,
    );
    rounds = ground (arith, e);
    errors = omega arith;
  }
