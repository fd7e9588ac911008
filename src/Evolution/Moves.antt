-- ===== src/Evolution/Moves.antt =====
-- The evolution as a whole: every move that a slot, the history or the file can see, in any order.
use doll_os.Prelude.{ℕ, Bool, true, false, Option, List, [], ◌∷◌}
use doll_os.Prelude.Floats.{Floats}
use doll_os.Evolution.Texts.{
  Text, Language, strip_surfacing_markers, echo_equivalent, mechanical_checks, restatement_overlap,
  same,
}
use doll_os.Evolution.Store.{
  World, load_slot, load_from, log_line, save_slot, clear_slot, restore_file, give_back, same_as,
}
use doll_os.Evolution.Tripwire.{
  Limits, process_tripwire, classify_tripwire, propose_edit, complete_edit, respond,
}
use doll_os.Evolution.Review.{
  Verdict, KeeperReply, Shown, shown, hidden, raised, surface_or_expire, reverdict_once,
  run_evolution_pass, bookkeep, surface, judge, retry, propose, drop_slot, expired,
}
use doll_os.Evolution.Revision.{
  Disk, Decision, self_revision, decide_slot, reject_slot, adopt_slot, counter_slot, anchor,
}
use doll_os.Evolution.Slot.{
  surfaced_slot, errored_slot, mark_awaiting_doll, revert_to_fallback, to_counter, make_keeper_slot,
  make_external_slot, next_interval_days,
}

pub record Settings (Real : Type 0) : Type 0 where
  pub limits : Limits
  pub max_surfacings : ℕ
  pub min_age_days : Real
  pub base_interval_days : Real
  pub max_interval_days : Real
  pub pack_texts : List Text

-- The file is edited from outside, a turn begins, the tripwire runs, a reflection surfaces the
-- candidate, the skeptic's answer comes, a keeper's pass ends, Doll decides.
pub data Move (Real : Type 0) : Type 0 where
  edited : Option Text → Move Real
  turn_began : Move Real
  tripwired : Bool → Real → Move Real
  reflected : Bool → Real → Move Real
  judged : Bool → Verdict → Real → Move Real
  kept : Bool → KeeperReply → KeeperReply → Verdict → ℕ → Real → Move Real
  revised : Disk → Decision → Text → Real → Move Real

module _ (floats : Floats) (language : Language) (settings : Settings floats.Real) where
  open floats use {Real}

  -- `ctx.evolution_candidate_surfaced`: nothing is set where the surfacing raises.
  abbrev pub set_surfaced : Shown × World floats → World floats
  set_surfaced (hidden, w) = record w { candidate_surfaced = false }
  set_surfaced (shown, w) = record w { candidate_surfaced = true }
  set_surfaced (raised, w) = w

  unfoldable pub move : Move Real → World floats → World floats
  move (edited text) w = record w { file = text }
  move turn_began w = record w { latched = false; candidate_surfaced = false }
  move (tripwired ok now) w = (process_tripwire floats settings.limits ok now w).1
  move (reflected ok now) w =
      set_surfaced (surface_or_expire floats ok settings.max_surfacings settings.min_age_days now w)
  move (judged ok verdict now) w = (reverdict_once floats ok verdict now w).1
  move (kept ok first second verdict new_off now) w =
      let r =
        run_evolution_pass floats language settings.limits ok first second verdict
          settings.pack_texts w.evolution_hwm now w in
      bookkeep floats settings.base_interval_days settings.max_interval_days r.0 now new_off r.1
  move (revised disk decision text now) w =
      (self_revision floats language settings.limits disk settings.base_interval_days
        settings.max_interval_days now decision text w).1

  unfoldable pub moves : List (Move Real) → World floats → World floats
  unfolding move process_tripwire respond classify_tripwire propose_edit complete_edit
      surface_or_expire surface reverdict_once judge run_evolution_pass retry propose bookkeep
      self_revision decide_slot reject_slot adopt_slot counter_slot anchor drop_slot expired
      load_slot load_from log_line save_slot clear_slot restore_file give_back surfaced_slot
      errored_slot mark_awaiting_doll revert_to_fallback to_counter make_keeper_slot
      make_external_slot strip_surfacing_markers echo_equivalent mechanical_checks
      restatement_overlap next_interval_days same same_as
  moves [] w = w
  moves (m ∷ ms) w = moves ms (move m w)
