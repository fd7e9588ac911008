-- ===== src/Evolution/Passes.antt =====
-- A keeper's pass keeps the invariant: its candidate is vouched for where the skeptic passes it.
use doll_os.Prelude.{
  ℕ, ◌≡◌, refl, Bool, true, false, Option, none, some, List, Bool-cases, Option-cases, inl, inr,
}
use doll_os.Prelude.Floats.{Floats}
use doll_os.Evolution.Texts.{Text, Language}
use doll_os.Evolution.Slot.{make_keeper_slot}
use doll_os.Evolution.Store.{
  World, Line, evo_error, evo_kill, evo_no_change, evo_candidate, load_slot,
}
use doll_os.Evolution.Tripwire.{Limits, checks}
use doll_os.Evolution.Review
use doll_os.Evolution.Review.{
  Verdict, KeeperReply, failed, unchanged, proposed, Shown, hidden, shown, raised, PassOutcome,
  pass_unchanged, pass_candidate, pass_kill, pass_error, run_evolution_pass, propose, retry, ended,
  restates, bookkeep,
}
use doll_os.Evolution.Sanction.{WorldOk, is_adopt, Ok-load_slot, Ok-save_slot, Ok-log_line}
use doll_os.Evolution.Transitions.{keeper-Ok}

module _ (floats : Floats) (language : Language) (Vouched : Text → Type 0) where
  open floats use {Real}

  abbrev Good : World floats → Type 0
  Good = WorldOk floats Vouched

  ended-Ok :
      (ok : Bool) (o : PassOutcome) (line : Line) (w : World floats)
      → is_adopt floats Vouched line ≡ false
      → Good w
      → Good (ended floats ok o line w).1
  ended-Ok true o line w e wo = Ok-log_line floats Vouched line w e wo
  ended-Ok false o line w e wo = wo

  -- The text of a reply is vouched for if the skeptic passes it.
  abbrev pub ReplyVouched : Verdict → KeeperReply → Type 0
  ReplyVouched verdict failed = Unit
  ReplyVouched verdict unchanged = Unit
  ReplyVouched verdict (proposed text rationale) = verdict ≡ Review.passed → Vouched text

  propose-Ok :
      (limits : Limits) (ok : Bool) (verdict : Verdict) (hwm : ℕ) (now : Real) (text : Text)
      (rationale : Option Text) (w : World floats)
      → (verdict ≡ Review.passed → Vouched text)
      → Good w
      → Good (propose floats language limits ok verdict hwm now text rationale w).1
  unfolding propose
  propose-Ok limits ok Review.errored hwm now text rationale w v wo =
      ended-Ok ok pass_error evo_error w refl wo
  propose-Ok limits ok (Review.killed reason) hwm now text rationale w v wo =
      ended-Ok ok pass_kill (evo_kill text) w refl wo
  propose-Ok limits ok Review.passed hwm now text rationale w v wo =
      let r = load_slot floats ok w in
      let ro = Ok-load_slot floats Vouched ok w wo in
      elim (Option-cases r.0) [
        | inr p ↦ rw (propose, p.1) (ended-Ok ok pass_kill (evo_kill text) r.1 refl ro)
        | inl e ↦
            rw (propose, e)
              (elim (Bool-cases ok) [
                | inl y ↦ rw y (
                    Ok-save_slot floats Vouched
                      (make_keeper_slot floats text rationale (some hwm) now) _
                      (keeper-Ok floats Vouched text rationale (some hwm) now (v refl))
                      (Ok-log_line floats Vouched (evo_candidate text) _ refl
                        (Ok-load_slot floats Vouched true w wo)))
                | inr n ↦ rw n (Ok-load_slot floats Vouched false w wo)
              ])
      ]

  retry-Ok :
      (limits : Limits) (ok : Bool) (reply : KeeperReply) (verdict : Verdict) (pack : List Text)
      (hwm : ℕ) (now : Real) (first : Text) (w : World floats)
      → ReplyVouched verdict reply
      → Good w
      → Good (retry floats language limits ok reply verdict pack hwm now first w).1
  unfolding retry
  retry-Ok limits ok failed verdict pack hwm now first w v wo =
      ended-Ok ok pass_kill (evo_kill first) w refl wo
  retry-Ok limits ok unchanged verdict pack hwm now first w v wo =
      ended-Ok ok pass_unchanged evo_no_change w refl wo
  retry-Ok limits ok (proposed text rationale) verdict pack hwm now first w v wo =
      elim (Bool-cases (checks floats limits text)) [
        | inl y ↦ rw y (elim (Bool-cases (restates floats language limits pack text)) [
          | inl y ↦ rw y (ended-Ok ok pass_kill (evo_kill text) w refl wo)
          | inr n ↦ rw n (propose-Ok limits ok verdict hwm now text rationale w v wo)
        ])
        | inr n ↦ rw n (ended-Ok ok pass_kill (evo_kill text) w refl wo)
      ]

  pub run_evolution_pass-Ok :
      (limits : Limits) (ok : Bool) (first second : KeeperReply) (verdict : Verdict)
      (pack : List Text) (hwm : ℕ) (now : Real) (w : World floats)
      → ReplyVouched verdict first
      → ReplyVouched verdict second
      → Good w
      → Good (run_evolution_pass floats language limits ok first second verdict pack hwm now w).1
  unfolding run_evolution_pass
  run_evolution_pass-Ok limits ok failed second verdict pack hwm now w v u wo =
      ended-Ok ok pass_error evo_error w refl wo
  run_evolution_pass-Ok limits ok unchanged second verdict pack hwm now w v u wo =
      ended-Ok ok pass_unchanged evo_no_change w refl wo
  run_evolution_pass-Ok limits ok (proposed text rationale) second verdict pack hwm now w v u wo =
      elim (Bool-cases (checks floats limits text)) [
        | inl y ↦ rw y (elim (Bool-cases (restates floats language limits pack text)) [
          | inl y ↦ rw y (retry-Ok limits ok second verdict pack hwm now text w u wo)
          | inr n ↦ rw n (propose-Ok limits ok verdict hwm now text rationale w v wo)
        ])
        | inr n ↦ rw n (ended-Ok ok pass_kill (evo_kill text) w refl wo)
      ]

  pub bookkeep-Ok :
      (base top : Real) (o : Option PassOutcome) (now : Real) (new_off : ℕ) (w : World floats)
      → Good w
      → Good (bookkeep floats base top o now new_off w)
  unfolding bookkeep
  bookkeep-Ok base top none now new_off w wo = wo
  bookkeep-Ok base top (some pass_error) now new_off w wo = wo
  bookkeep-Ok base top (some pass_unchanged) now new_off w wo = record {
    slot = wo.slot;
    adopted = wo.adopted;
  }
  bookkeep-Ok base top (some pass_kill) now new_off w wo = record {
    slot = wo.slot;
    adopted = wo.adopted;
  }
  bookkeep-Ok base top (some pass_candidate) now new_off w wo = record {
    slot = wo.slot;
    adopted = wo.adopted;
  }
