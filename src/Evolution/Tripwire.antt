-- ===== src/Evolution/Tripwire.antt =====
-- `classify_tripwire` of src/dollos/mind/current_self.py and `process_tripwire` of
-- src/dollos/mind/evolution.py: what an edit of current_self.md leads to.
use doll_os.Prelude.{ℕ, Bool, true, false, Option, none, some, [], if◌then◌else◌}
use doll_os.Prelude.Floats.{Floats}
use doll_os.Evolution.Texts.{Text, same, Enforcement, mechanical_checks}
use doll_os.Evolution.Slot.{make_external_slot}
use doll_os.Evolution.Store.{
  World, evo_repair, external_edit, latest_adopt, sanctioned_text, latest_external_edit_text,
  or_empty, same_as, load_slot, save_slot, log_line, restore_file,
}

pub data Action : Type 0 where
  in_sync crash_repair already_logged new_edit : Action

unfoldable pub classify_tripwire : Text → Option Text → Option Text → Option Text → Action
unfolding same same_as
classify_tripwire file sanctioned adopt_old last_edit =
    if same file (or_empty sanctioned)
    then in_sync
    else if same_as adopt_old file
    then crash_repair
    else elim sanctioned [
      | none ↦ if same_as last_edit file then already_logged else new_edit
      | some t ↦ elim adopt_old [
        | none ↦
            if same file []
            then crash_repair
            else if same_as last_edit file
            then already_logged
            else new_edit
        | some o ↦ if same_as last_edit file then already_logged else new_edit
      ]
    ]

abbrev pub old_text : Option (Text × Option Text) → Option Text
old_text none = none
old_text (some a) = a.1

-- The limits of the mechanical checks.
pub record Limits : Type 0 where
  pub floor : ℕ
  pub cap : ℕ
  pub enforcement : Enforcement

module _ (floats : Floats) (limits : Limits) where
  open floats use {Real}

  abbrev pub checks : Text → Bool
  checks t = elim (mechanical_checks limits.floor limits.cap limits.enforcement t) [
    | none ↦ true
    | some r ↦ false
  ]

  -- An external slot, unless there is one.
  unfoldable pub propose_edit : Bool → Real → Text → World floats → World floats
  propose_edit append_ok now text w =
      let r = load_slot floats append_ok w in
      elim r.0 [ none ↦ save_slot floats (make_external_slot floats text now) r.1 | some s ↦ r.1 ]

  -- The completion of an edit whose slot was never written.
  unfoldable pub complete_edit : Bool → Real → Text → World floats → World floats
  complete_edit append_ok now text w =
      let r = load_slot floats append_ok w in
      elim r.0 [
        | some s ↦ r.1
        | none ↦
            if checks text
            then save_slot floats (make_external_slot floats text now) r.1
            else restore_file floats (sanctioned_text w.history) r.1
      ]

  -- `process_tripwire` behind the classification; false where the append of the audit line raises.
  unfoldable pub respond : Bool → Real → World floats → Action → Bool × World floats
  respond append_ok now w in_sync = (true, w)
  respond append_ok now w already_logged = (true, complete_edit append_ok now (or_empty w.file) w)
  respond append_ok now w crash_repair =
      let sanctioned = sanctioned_text w.history in
      if append_ok
      then (true, restore_file floats sanctioned (log_line floats (evo_repair sanctioned) w))
      else (false, w)
  respond append_ok now w new_edit =
      let text = or_empty w.file in
      if append_ok
      then (
        true,
        if checks text
            then propose_edit append_ok now text (log_line floats (external_edit (some text)) w)
            else restore_file floats (sanctioned_text w.history)
                (log_line floats (external_edit none) w),
      )
      else (false, w)

  unfoldable pub process_tripwire : Bool → Real → World floats → Bool × World floats
  process_tripwire append_ok now w = respond append_ok now w (
      classify_tripwire (or_empty w.file) (sanctioned_text w.history)
        (old_text (latest_adopt w.history)) (latest_external_edit_text w.history))
