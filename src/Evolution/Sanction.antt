-- ===== src/Evolution/Sanction.antt =====
-- Who Doll is: only a reviewed text is ever adopted.
use doll_os.Prelude.{
  ◌≤◌, ◌<◌, ◌≡◌, refl, Bool, true, false, Option, some, List, ◌∷◌, arith, sym, subst, ◌∙◌, ap,
  some_inj,
}
use doll_os.Prelude.Floats.{Floats}
use doll_os.Evolution.Texts.{Text}
use doll_os.Evolution.Slot.{PendingSlot, Proposal, counter, awaiting_skeptic, awaiting_doll}
use doll_os.Evolution.Store.{
  evo_candidate, evo_reject, evo_counter, evo_no_change, external_edit, other, World, Line,
  SlotFile, missing, corrupt, stored, latest_adopt, sanctioned_text, load_slot, save_slot,
  clear_slot, log_line, restore_file, give_back, evo_adopt, evo_candidate, load_from, evo_reject,
  evo_error, evo_repair, evo_expire, evo_kill, evo_counter, external_edit,
}
use doll_os.Evolution.Review.{drop_slot}

module _ (floats : Floats) (Vouched : Text → Type 0) where
  open floats use {Real}

  -- A slot that waits for Doll was vouched for, a counter under review can go back to such a text,
  -- and the bounds on rewrites and errors hold.
  pub record SlotOk (s : PendingSlot floats) : Type 0 where
    pub reviewed : s.status ≡ awaiting_doll → Vouched s.candidate
    pub returns :
        s.status ≡ awaiting_skeptic
        → s.kind ≡ counter
        → (p : Proposal) × (s.fallback ≡ some p) × Vouched p.candidate
    pub rounds : s.counter_round ≤ 2
    pub errors : s.verdict_errors < 3

  abbrev pub FileOk : SlotFile (PendingSlot floats) → Type 0
  FileOk missing = Unit
  FileOk corrupt = Unit
  FileOk (stored s) = SlotOk s

  pub record WorldOk (w : World floats) : Type 0 where
    pub slot : FileOk w.slot
    pub adopted : (t : Text) → sanctioned_text w.history ≡ some t → Vouched t

  pub slot-restore_file :
      (t : Option Text) (w : World floats) → (restore_file floats t w).slot ≡ w.slot
  unfolding restore_file
  slot-restore_file t w = ground arith

  history-restore_file :
      (t : Option Text) (w : World floats) → (restore_file floats t w).history ≡ w.history
  unfolding restore_file
  history-restore_file t w = ground arith

  abbrev pub is_adopt : Line → Bool
  is_adopt (evo_adopt text old) = true
  is_adopt line = false

  sanctioned-line :
      (line : Line) (h : List Line)
      → is_adopt line ≡ false
      → sanctioned_text (line ∷ h) ≡ sanctioned_text h
  unfolding sanctioned_text latest_adopt
  sanctioned-line (evo_adopt text old) h e = absurd (ground arith)
  sanctioned-line (evo_candidate t) h e = refl
  sanctioned-line (evo_reject t) h e = refl
  sanctioned-line (evo_expire t) h e = refl
  sanctioned-line (evo_kill t) h e = refl
  sanctioned-line (evo_counter t n) h e = refl
  sanctioned-line (evo_repair t) h e = refl
  sanctioned-line (external_edit t) h e = refl
  sanctioned-line evo_no_change h e = refl
  sanctioned-line evo_error h e = refl
  sanctioned-line other h e = refl

  pub Ok-log_line :
      (line : Line) (w : World floats)
      → is_adopt line ≡ false
      → WorldOk w
      → WorldOk (log_line floats line w)
  unfolding log_line
  Ok-log_line line w e wo = record {
    slot = wo.slot;
    adopted = λ t h. wo.adopted t (sym (sanctioned-line line w.history e) ∙ h);
  }

  pub Ok-clear_slot : (w : World floats) → WorldOk w → WorldOk (clear_slot floats w)
  unfolding clear_slot
  Ok-clear_slot w wo = record { slot = tt; adopted = wo.adopted }

  pub Ok-save_slot :
      (s : PendingSlot floats) (w : World floats)
      → SlotOk s
      → WorldOk w
      → WorldOk (save_slot floats s w)
  unfolding save_slot
  Ok-save_slot s w so wo = record { slot = so; adopted = wo.adopted }

  pub Ok-restore_file :
      (t : Option Text) (w : World floats) → WorldOk w → WorldOk (restore_file floats t w)
  Ok-restore_file t w wo = record {
    slot = subst FileOk (sym (slot-restore_file t w)) wo.slot;
    adopted = λ u h. wo.adopted u (ap sanctioned_text (sym (history-restore_file t w)) ∙ h);
  }

  pub Ok-drop_slot :
      (t : Option Text) (w : World floats) → WorldOk w → WorldOk (drop_slot floats t w)
  unfolding drop_slot
  Ok-drop_slot t w wo = Ok-restore_file t (clear_slot floats w) (Ok-clear_slot w wo)

  pub Ok-give_back :
      (now : Real) (s : PendingSlot floats) (w : World floats)
      → WorldOk w
      → WorldOk (give_back floats now s w)
  unfolding give_back
  Ok-give_back now s w wo = record { slot = wo.slot; adopted = wo.adopted }

  pub Ok-load_from :
      (ok : Bool) (f : SlotFile (PendingSlot floats)) (w : World floats)
      → WorldOk w
      → WorldOk (load_from floats ok w f).1
  unfolding load_from
  Ok-load_from ok missing w wo = wo
  Ok-load_from true corrupt w wo =
      Ok-log_line evo_error (clear_slot floats w) refl (Ok-clear_slot w wo)
  Ok-load_from false corrupt w wo = Ok-clear_slot w wo
  Ok-load_from ok (stored s) w wo = wo

  pub Ok-load_slot : (ok : Bool) (w : World floats) → WorldOk w → WorldOk (load_slot floats ok w).1
  unfolding load_slot
  Ok-load_slot ok w wo = Ok-load_from ok w.slot w wo

  -- What `load_slot` gives is a good slot.
  pub Ok-from :
      (ok : Bool) (f : SlotFile (PendingSlot floats)) (w : World floats) (s : PendingSlot floats)
      → FileOk f
      → (load_from floats ok w f).0 ≡ some s
      → SlotOk s
  unfolding load_from
  Ok-from ok missing w s fo e = absurd (ground (arith, e))
  Ok-from ok corrupt w s fo e = absurd (ground (arith, e))
  Ok-from ok (stored t) w s fo e = subst SlotOk (some_inj e) fo

  pub Ok-loaded :
      (ok : Bool) (w : World floats) (s : PendingSlot floats)
      → WorldOk w
      → (load_slot floats ok w).0 ≡ some s
      → SlotOk s
  unfolding load_slot
  Ok-loaded ok w s wo e = Ok-from ok w.slot w s wo.slot e
