-- ===== src/Evolution/Reviewed.antt =====
-- Who Doll is was always reviewed, whatever moves the evolution makes.
use doll_os.Prelude.{List, [], ◌∷◌}
use doll_os.Prelude.Floats.{Floats}
use doll_os.Evolution.Texts.{Text, Language}
use doll_os.Evolution.Store.{World}
use doll_os.Evolution.Review.{Shown, hidden, shown, raised}
use doll_os.Evolution.Moves.{
  Settings, Move, edited, turn_began, tripwired, reflected, judged, kept, revised, set_surfaced,
  move, moves,
}
use doll_os.Evolution.Sanction.{WorldOk}
use doll_os.Evolution.Sound.{
  process_tripwire-Ok, surface_or_expire-Ok, PassVouched, reverdict_once-Ok,
}
use doll_os.Evolution.Passes.{ReplyVouched, bookkeep-Ok, run_evolution_pass-Ok}
use doll_os.Evolution.Decisions.{self_revision-Ok}

module _ (floats : Floats) (language : Language) (settings : Settings floats.Real)
    (Vouched : Text → Type 0) where
  open floats use {Real}

  -- Where a move has the skeptic pass a text, the text is vouched for.
  abbrev pub MoveVouched : Move Real → World floats → Type 0
  MoveVouched (edited text) w = Unit
  MoveVouched turn_began w = Unit
  MoveVouched (tripwired ok now) w = Unit
  MoveVouched (reflected ok now) w = Unit
  MoveVouched (judged ok verdict now) w = PassVouched floats Vouched ok verdict w
  MoveVouched (kept ok first second verdict new_off now) w =
      ReplyVouched floats language Vouched verdict first
      × ReplyVouched floats language Vouched verdict second
  MoveVouched (revised disk decision text now) w = Unit

  abbrev pub AllVouched : List (Move Real) → World floats → Type 0
  AllVouched [] w = Unit
  AllVouched (m ∷ ms) w = MoveVouched m w × AllVouched ms (move floats language settings m w)

  set_surfaced-Ok :
      (r : Shown × World floats)
      → WorldOk floats Vouched r.1
      → WorldOk floats Vouched (set_surfaced floats language settings r)
  set_surfaced-Ok (hidden, w) wo = record { slot = wo.slot; adopted = wo.adopted }
  set_surfaced-Ok (shown, w) wo = record { slot = wo.slot; adopted = wo.adopted }
  set_surfaced-Ok (raised, w) wo = wo

  move-Ok :
      (m : Move Real) (w : World floats)
      → MoveVouched m w
      → WorldOk floats Vouched w
      → WorldOk floats Vouched (move floats language settings m w)
  unfolding move
  move-Ok (edited text) w v wo = record { slot = wo.slot; adopted = wo.adopted }
  move-Ok turn_began w v wo = record { slot = wo.slot; adopted = wo.adopted }
  move-Ok (tripwired ok now) w v wo = process_tripwire-Ok floats Vouched settings.limits ok now w wo
  move-Ok (reflected ok now) w v wo = set_surfaced-Ok _ (
      surface_or_expire-Ok floats Vouched ok settings.max_surfacings settings.min_age_days now w wo)
  move-Ok (judged ok verdict now) w v wo = reverdict_once-Ok floats Vouched ok verdict now w v wo
  move-Ok (kept ok first second verdict new_off now) w v wo =
      bookkeep-Ok floats language Vouched settings.base_interval_days settings.max_interval_days _
        now new_off _
        (run_evolution_pass-Ok floats language Vouched settings.limits ok first second verdict
          settings.pack_texts w.evolution_hwm now w v.0 v.1 wo)
  move-Ok (revised disk decision text now) w v wo =
      self_revision-Ok floats language Vouched settings.limits disk settings.base_interval_days
        settings.max_interval_days now decision text w wo

  -- Whatever the moves, from a good state: the state stays good. The slot has been rewritten at most
  -- twice and has fewer than three errors of the skeptic, and each text that became the sanctioned
  -- one was vouched for by a skeptic that passed it.
  pub moves-WorldOk :
      (ms : List (Move Real)) (w : World floats)
      → AllVouched ms w
      → WorldOk floats Vouched w
      → WorldOk floats Vouched (moves floats language settings ms w)
  unfolding moves
  moves-WorldOk [] w v wo = wo
  moves-WorldOk (m ∷ ms) w v wo =
      moves-WorldOk ms (move floats language settings m w) v.1 (move-Ok m w v.0 wo)
