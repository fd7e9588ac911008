-- ===== src/Evolution/Review.antt =====
-- What happens to the pending slot between Doll's decisions: `surface_or_expire` of
-- src/dollos/mind/evolution.py, `_reverdict_once` of src/dollos/mind/evolution_trigger.py and
-- `run_evolution_pass` of src/dollos/mind/evolution_keeper.py. What an agent answers is an input.
use doll_os.Prelude.{ℕ, Bool, true, false, ◌&&◌, Option, none, some, List, leb, if◌then◌else◌}
use doll_os.Prelude.Floats.{Floats}
use doll_os.Evolution.Texts.{Text, Language, restatement_overlap}
use doll_os.Evolution.Slot.{
  PendingSlot, keeper, counter, external, verdict_errors_bound, no_change, kill, next_interval_days,
  make_keeper_slot, mark_awaiting_doll, revert_to_fallback, surfaced_slot, errored_slot,
  waits_for_doll,
}
use doll_os.Evolution.Store.{
  World, Line, evo_repair, evo_expire, evo_error, evo_kill, evo_no_change, evo_candidate,
  sanctioned_text, same_as, load_slot, save_slot, clear_slot, log_line, restore_file, give_back,
}
use doll_os.Evolution.Tripwire.{Limits, checks}

-- What `_skeptic` comes to: a timeout or an empty report counts as an error.
pub data Verdict : Type 0 where
  passed errored : Verdict
  killed : Text → Verdict

-- What the keeper's report is parsed into.
pub data KeeperReply : Type 0 where
  failed unchanged : KeeperReply
  proposed : Text → Option Text → KeeperReply

pub data Shown : Type 0 where
  hidden shown raised : Shown

pub data PassOutcome : Type 0 where
  pass_unchanged pass_candidate pass_kill pass_error : PassOutcome

module _ (floats : Floats) where
  open floats use {Real, number, sub, div, at_least}

  unfoldable pub expired : ℕ → Real → Real → PendingSlot floats → Bool
  expired max_surfacings min_age_days now s =
      leb max_surfacings s.surfaced_count
      && at_least (div (sub now s.created_ts) (number 86400)) min_age_days

  -- The end of a slot that is not adopted.
  unfoldable pub drop_slot : Option Text → World floats → World floats
  drop_slot sanctioned w = restore_file floats sanctioned (clear_slot floats w)

  -- `surface_or_expire` on a slot that waits for Doll.
  unfoldable pub surface :
      Bool → ℕ → Real → Real → PendingSlot floats → World floats → Shown × World floats
  surface append_ok max_surfacings min_age_days now s w =
      let sanctioned = sanctioned_text w.history in
      if same_as sanctioned s.candidate
      then (if append_ok
          then (hidden, clear_slot floats (log_line floats (evo_repair sanctioned) w))
          else (raised, w))
      else if expired max_surfacings min_age_days now s
      then (if append_ok
          then (
            hidden,
            give_back floats now s
                (drop_slot sanctioned (log_line floats (evo_expire s.candidate) w)),
          )
          else (raised, w))
      else (shown, save_slot floats (surfaced_slot floats s) w)

  abbrev pub is_shown : Shown → Bool
  is_shown shown = true
  is_shown hidden = false
  is_shown raised = false

  -- A reflection turn: `surface_or_expire`, and the gate that MindLoop sets by it.
  unfoldable pub surface_or_expire : Bool → ℕ → Real → Real → World floats → Shown × World floats
  surface_or_expire append_ok max_surfacings min_age_days now w =
      let r = load_slot floats append_ok w in
      elim r.0 [
        | none ↦ (hidden, r.1)
        | some s ↦
            if waits_for_doll s.status
            then surface append_ok max_surfacings min_age_days now s r.1
            else (hidden, r.1)
      ]

  -- `_reverdict_once` behind the skeptic's answer, on a slot that waits for it.
  unfoldable pub judge :
      Bool → Verdict → Real → PendingSlot floats → World floats → Bool × World floats
  judge append_ok errored now s w =
      let t = errored_slot floats now s in
      let w' = record w { last_error_ts = some now } in
      if leb verdict_errors_bound t.verdict_errors
      then (if append_ok
          then (
            true,
            give_back floats now t (
                drop_slot (sanctioned_text w.history)
                  (log_line floats (evo_expire t.candidate) w')),
          )
          else (false, w'))
      else if append_ok
      then (true, save_slot floats t (log_line floats evo_error w'))
      else (false, w')
  judge append_ok passed now s w =
      (true, save_slot floats (mark_awaiting_doll floats s) (record w { last_error_ts = none }))
  judge append_ok (killed reason) now s w =
      let w' = record w { last_error_ts = none } in
      if append_ok
      then (
        true,
        elim s.kind [
          | counter ↦
              save_slot floats (revert_to_fallback floats reason s)
                (log_line floats (evo_kill s.candidate) w')
          | keeper ↦
              drop_slot (sanctioned_text w.history) (log_line floats (evo_kill s.candidate) w')
          | external ↦
              drop_slot (sanctioned_text w.history) (log_line floats (evo_kill s.candidate) w')
        ],
      )
      else (false, w')

  unfoldable pub reverdict_once : Bool → Verdict → Real → World floats → Bool × World floats
  reverdict_once append_ok verdict now w =
      let r = load_slot floats append_ok w in
      elim r.0 [
        | none ↦ (true, r.1)
        | some s ↦
            if waits_for_doll s.status then (true, r.1) else judge append_ok verdict now s r.1
      ]

  -- A keeper's pass: none where an audit line cannot be appended.
  abbrev pub ended : Bool → PassOutcome → Line → World floats → Option PassOutcome × World floats
  ended append_ok o line w = if append_ok then (some o, log_line floats line w) else (none, w)

  module _ (language : Language) (limits : Limits) where
    -- Behind the checks of the text: the full skeptic and the birth of the slot.
    unfoldable pub propose :
        Bool
        → Verdict
        → ℕ
        → Real
        → Text
        → Option Text
        → World floats
        → Option PassOutcome × World floats
    propose append_ok errored hwm now text rationale w = ended append_ok pass_error evo_error w
    propose append_ok (killed reason) hwm now text rationale w =
        ended append_ok pass_kill (evo_kill text) w
    propose append_ok passed hwm now text rationale w =
        let r = load_slot floats append_ok w in
        elim r.0 [
          | some s ↦ ended append_ok pass_kill (evo_kill text) r.1
          | none ↦
              if append_ok
              then (
                some pass_candidate,
                save_slot floats (make_keeper_slot floats text rationale (some hwm) now)
                    (log_line floats (evo_candidate text) r.1),
              )
              else (none, r.1)
        ]

    abbrev pub restates : List Text → Text → Bool
    restates pack text = elim (restatement_overlap language text pack) [
      | none ↦ false
      | some s ↦ true
    ]

    -- The second reply, after the first one restated the pack.
    unfoldable pub retry :
        Bool
        → KeeperReply
        → Verdict
        → List Text
        → ℕ
        → Real
        → Text
        → World floats
        → Option PassOutcome × World floats
    retry append_ok failed verdict pack hwm now first w =
        ended append_ok pass_kill (evo_kill first) w
    retry append_ok unchanged verdict pack hwm now first w =
        ended append_ok pass_unchanged evo_no_change w
    retry append_ok (proposed text rationale) verdict pack hwm now first w =
        if checks floats limits text
        then (if restates pack text
            then ended append_ok pass_kill (evo_kill text) w
            else propose append_ok verdict hwm now text rationale w)
        else ended append_ok pass_kill (evo_kill text) w

    unfoldable pub run_evolution_pass :
        Bool
        → KeeperReply
        → KeeperReply
        → Verdict
        → List Text
        → ℕ
        → Real
        → World floats
        → Option PassOutcome × World floats
    run_evolution_pass append_ok failed second verdict pack hwm now w =
        ended append_ok pass_error evo_error w
    run_evolution_pass append_ok unchanged second verdict pack hwm now w =
        ended append_ok pass_unchanged evo_no_change w
    run_evolution_pass append_ok (proposed text rationale) second verdict pack hwm now w =
        if checks floats limits text
        then (if restates pack text
            then retry append_ok second verdict pack hwm now text w
            else propose append_ok verdict hwm now text rationale w)
        else ended append_ok pass_kill (evo_kill text) w

  -- `_apply_mode_a_bookkeeping`, less the anchor of an error.
  unfoldable pub bookkeep :
      Real → Real → Option PassOutcome → Real → ℕ → World floats → World floats
  bookkeep base cap (some pass_unchanged) now new_off w = record w {
    last_evolution_attempt_at = now;
    evolution_interval_days =
        next_interval_days floats w.evolution_interval_days no_change base cap;
    evolution_hwm = new_off;
  }
  bookkeep base cap (some pass_kill) now new_off w = record w {
    last_evolution_attempt_at = now;
    evolution_interval_days = next_interval_days floats w.evolution_interval_days kill base cap;
    evolution_hwm = new_off;
  }
  bookkeep base cap (some pass_candidate) now new_off w = record w {
    last_evolution_attempt_at = now;
    evolution_hwm = new_off;
  }
  bookkeep base cap (some pass_error) now new_off w = w
  bookkeep base cap none now new_off w = w
