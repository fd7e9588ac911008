-- ===== src/Evolution/Store.antt =====
-- Where the evolution keeps its state: the slot's file, the history of self_history.jsonl (here its
-- newest event first), current_self.md, and the anchors of MindState. An append to the history may
-- fail; the other writes of the slot and of the restored file are taken to work.
use doll_os.Prelude.{ℕ, Bool, false, Option, none, some, List, [], ◌∷◌, if◌then◌else◌}
use doll_os.Prelude.Floats.{Floats}
use doll_os.Evolution.Texts.{Text, same}
use doll_os.Evolution.Slot.{PendingSlot}

-- The events of the history that the evolution writes or reads; `other` is any other line.
pub data Line : Type 0 where
  evo_candidate evo_reject evo_expire evo_kill : Text → Line
  evo_counter : Text → ℕ → Line
  evo_adopt : Text → Option Text → Line
  evo_repair : Option Text → Line
  external_edit : Option Text → Line
  evo_no_change evo_error other : Line

pub data SlotFile (Slot : Type 0) : Type 0 where
  missing corrupt : SlotFile Slot
  stored : Slot → SlotFile Slot

-- `latest_adopt`: the text and the text before.
unfoldable pub latest_adopt : List Line → Option (Text × Option Text)
latest_adopt [] = none
latest_adopt (evo_adopt text old ∷ lines) = some (text, old)
latest_adopt (line ∷ lines) = latest_adopt lines

unfoldable pub sanctioned_text : List Line → Option Text
unfolding latest_adopt
sanctioned_text lines = elim (latest_adopt lines) [ none ↦ none | some a ↦ some a.0 ]

-- A terminal event hides the edits before it; the loop goes on but can only come to `none`.
unfoldable pub latest_external_edit_text : List Line → Option Text
latest_external_edit_text [] = none
latest_external_edit_text (external_edit (some text) ∷ lines) = some text
latest_external_edit_text (evo_adopt text old ∷ lines) = none
latest_external_edit_text (evo_reject text ∷ lines) = none
latest_external_edit_text (evo_kill text ∷ lines) = none
latest_external_edit_text (evo_expire text ∷ lines) = none
latest_external_edit_text (line ∷ lines) = latest_external_edit_text lines

-- `file.read_text() if it exists else ""`, and `text or ""`
abbrev pub or_empty : Option Text → Text
or_empty none = []
or_empty (some t) = t

unfoldable pub same_as : Option Text → Text → Bool
same_as none t = false
same_as (some s) t = same s t

module _ (floats : Floats) where
  open floats use {Real}

  pub record World : Type 0 where
    pub slot : SlotFile (PendingSlot floats)
    pub history : List Line
    pub file : Option Text
    pub last_evolution_attempt_at : Real
    pub evolution_interval_days : Real
    pub evolution_hwm : ℕ
    -- `EvolutionTrigger._last_error_ts`
    pub last_error_ts : Option Real
    -- `ctx.evolution_latched` and `ctx.evolution_candidate_surfaced`
    pub latched : Bool
    pub candidate_surfaced : Bool

  -- `log_or_raise`, where the append works.
  unfoldable pub log_line : Line → World → World
  log_line line w = record w { history = line ∷ w.history }

  unfoldable pub save_slot : PendingSlot floats → World → World
  save_slot s w = record w { slot = stored s }

  unfoldable pub clear_slot : World → World
  clear_slot w = record w { slot = missing }

  -- `load_slot`: a corrupt file is put aside, and the failure of its audit line is swallowed.
  unfoldable pub load_from :
      Bool → World → SlotFile (PendingSlot floats) → Option (PendingSlot floats) × World
  load_from append_ok w missing = (none, w)
  load_from append_ok w corrupt =
      (none, if append_ok then log_line evo_error (clear_slot w) else clear_slot w)
  load_from append_ok w (stored s) = (some s, w)

  unfoldable pub load_slot : Bool → World → Option (PendingSlot floats) × World
  unfolding load_from
  load_slot append_ok w = load_from append_ok w w.slot

  unfoldable pub restore_file : Option Text → World → World
  unfolding same
  restore_file sanctioned w =
      if same (or_empty w.file) (or_empty sanctioned) then w else record w { file = sanctioned }

  -- `if hwm_before is not None: evolution_hwm = hwm_before`, and the anchor.
  unfoldable pub give_back : Real → PendingSlot floats → World → World
  give_back now s w = record w {
    last_evolution_attempt_at = now;
    evolution_hwm = elim s.hwm_before [ none ↦ w.evolution_hwm | some n ↦ n ];
  }
