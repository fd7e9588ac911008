-- ===== src/Evolution/Revision.antt =====
-- `SelfRevision.run` of src/dollos/tools.py: Doll's decision on the pending candidate. The drift score
-- of the history and the texts of the answers are left out.
use doll_os.Prelude.{Bool, true, false, not, ◌||◌, Option, none, some, [], ◌∷◌, leb, if◌then◌else◌}
use doll_os.Prelude.Floats.{Floats}
use doll_os.Evolution.Texts.{
  Text, Language, Reason, strip_surfacing_markers, echo_equivalent, mechanical_checks,
}
use doll_os.Evolution.Slot.{
  PendingSlot, SlotKind, external, counter_round_cap, Outcome, adopt, reject, next_interval_days,
  to_counter, waits_for_doll,
}
use doll_os.Evolution.Store.{
  World, evo_reject, evo_adopt, evo_error, evo_counter, sanctioned_text, load_slot, save_slot,
  clear_slot, log_line, restore_file,
}
use doll_os.Evolution.Tripwire.{Limits}

pub data Decision : Type 0 where
  adopting rejecting : Decision

pub data Answer : Type 0 where
  already_handled nothing_pending under_review not_shown : Answer
  reject_failed set_aside same_as_current adopt_failed adopted adopted_unwritten : Answer
  rewritten_twice counter_failed in_review crashed : Answer
  refused : Reason → Answer

-- Which writes work: the append of the decision, the file, the file once more, the append of the error.
pub record Disk : Type 0 where
  pub append_ok : Bool
  pub write_ok : Bool
  pub rewrite_ok : Bool
  pub error_ok : Bool

module _ (floats : Floats) (language : Language) (limits : Limits) where
  open floats use {Real}

  -- `_anchor_evolution_decision`
  unfoldable pub anchor : Real → Real → Real → Outcome → SlotKind → World floats → World floats
  anchor base top now outcome external w = record w { last_evolution_attempt_at = now }
  anchor base top now outcome kind w = record w {
    last_evolution_attempt_at = now;
    evolution_interval_days = next_interval_days floats w.evolution_interval_days outcome base top;
  }

  abbrev pub latch : World floats → World floats
  latch w = record w { latched = true }

  -- `sanctioned is not None and echo_equivalent(text, sanctioned)`
  abbrev pub echoes : Text → Option Text → Bool
  echoes text none = false
  echoes text (some t) = echo_equivalent language text t

  unfoldable pub reject_slot :
      Disk → Real → Real → Real → PendingSlot floats → World floats → Answer × World floats
  reject_slot disk base top now s w =
      if disk.append_ok
      then (
        set_aside,
        latch (
            anchor base top now reject s.kind (
              restore_file floats (sanctioned_text w.history)
                (clear_slot floats (log_line floats (evo_reject s.candidate) w)))),
      )
      else (reject_failed, w)

  -- Behind the line of the adoption, where the file is written or not.
  unfoldable pub adopt_slot :
      Disk → Real → Real → Real → PendingSlot floats → World floats → Answer × World floats
  adopt_slot disk base top now s w =
      let logged = log_line floats (evo_adopt s.candidate (sanctioned_text w.history)) w in
      let settled =
        λ (v : World floats). latch (anchor base top now adopt s.kind (clear_slot floats v)) in
      if not disk.append_ok
      then (adopt_failed, w)
      else if disk.write_ok || disk.rewrite_ok
      then (adopted, settled (record logged { file = some s.candidate }))
      else if disk.error_ok
      then (adopted_unwritten, settled (log_line floats evo_error logged))
      else (crashed, logged)

  unfoldable pub counter_slot :
      Disk → Text → PendingSlot floats → World floats → Answer × World floats
  counter_slot disk text s w =
      if leb counter_round_cap s.counter_round
      then (rewritten_twice, w)
      else elim (mechanical_checks limits.floor limits.cap limits.enforcement text) [
        | some r ↦ (refused r, w)
        | none ↦
            let c = to_counter floats text s in
            if disk.append_ok
            then (
              in_review,
              latch (save_slot floats c (log_line floats (evo_counter text c.counter_round) w)),
            )
            else (counter_failed, w)
      ]

  abbrev pub is_empty : Text → Bool
  is_empty [] = true
  is_empty (c ∷ s) = false

  -- The decision on a slot that Doll was shown.
  unfoldable pub decide_slot :
      Disk
      → Real
      → Real
      → Real
      → Decision
      → Text
      → PendingSlot floats
      → World floats
      → Answer × World floats
  decide_slot disk base top now rejecting text s w = reject_slot disk base top now s w
  decide_slot disk base top now adopting text s w =
      let proposed = strip_surfacing_markers language text in
      let sanctioned = sanctioned_text w.history in
      if is_empty proposed || echo_equivalent language proposed s.candidate
      then (if echoes s.candidate sanctioned
          then (same_as_current, w)
          else adopt_slot disk base top now s w)
      else if echoes proposed sanctioned
      then (same_as_current, w)
      else counter_slot disk proposed s w

  unfoldable pub self_revision :
      Disk → Real → Real → Real → Decision → Text → World floats → Answer × World floats
  self_revision disk base top now decision text w =
      let r = load_slot floats disk.append_ok w in
      if w.latched then (already_handled, w) else elim r.0 [
        | none ↦ (nothing_pending, r.1)
        | some s ↦
            if not (waits_for_doll s.status)
            then (under_review, r.1)
            else if not w.candidate_surfaced
            then (not_shown, r.1)
            else decide_slot disk base top now decision text s r.1
      ]
