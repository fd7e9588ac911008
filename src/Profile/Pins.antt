-- ===== src/Profile/Pins.antt =====
-- What `apply` leaves in the file.
use doll_os.Prelude.{
  ℕ, ◌+◌, ◌≡◌, refl, sym, ap, ◌∙◌, inl, inr, Bool, true, false, ◌&&◌, Option, none, some, List, [],
  ◌∷◌, ◌++◌, ltb, length, All, Bool-cases, subst, leb,
}
use doll_os.Wal.Lines.{OneLine}
use doll_os.Profile.{
  Text, Chars, Section, self, relationship, user, Bullet, Sections, bullets_of, set_bullets,
  prefix_of, date_shape, read_shape, parse, serialize, empty_sections,
}
use doll_os.Profile.Edits.{Placed, find, next_id, strip_incoming_tag, greatest_number}
use doll_os.Profile.Apply.{
  PinAnswer, Op, add, replace, remove, other, Call, PinEvent, file_text, with_text, set_at, pop_at,
  commit, add_unless, apply_add, apply_replace, apply_remove, apply_op, apply, new_bullet, revised,
}
use doll_os.Profile.Bullets.{IsTable, IsBullet, ends_solid}
use doll_os.Profile.RoundTrip.{IsProfile, parse-serialize}
use doll_os.Profile.Found.{All-snoc, All-set_at, All-pop_at, Found, Found-find}

module _ (chars : Chars) (table : IsTable chars) where
  open chars use {blank}
  open table use {numeral}

  -- The file is missing, or a profile was written to it.
  abbrev pub IsWritten : Option Text → Sections → Type 0
  IsWritten none s = s ≡ empty_sections
  IsWritten (some t) s = (t ≡ serialize s) × IsProfile chars table s

  -- A day and a text that a bullet can be made of: the text is one line, and not empty once it is
  -- stripped.
  pub record IsPinnable (c : Call) : Type 0 where
    pub dated : read_shape chars date_shape c.today ≡ some (c.today, [])
    pub date_line : OneLine c.today
    pub text_line : OneLine (strip_incoming_tag chars c.text)
    pub solid : ends_solid blank (strip_incoming_tag chars c.text) ≡ true

  empty-IsProfile : IsProfile chars table empty_sections
  empty-IsProfile = record { own = tt; shared = tt; noticed = tt }

  pub IsWritten-IsProfile :
      (file : Option Text) (s : Sections) → IsWritten file s → IsProfile chars table s
  IsWritten-IsProfile none s h = subst (IsProfile chars table) (sym h) empty-IsProfile
  IsWritten-IsProfile (some t) s h = h.1

  parse-nil : parse chars [] ≡ empty_sections
  unfolding parse doll_os.Wal.Lines.split_lines
  parse-nil = refl

  pub parse-IsWritten :
      (file : Option Text) (s : Sections) → IsWritten file s → parse chars (file_text file) ≡ s
  parse-IsWritten none s h = parse-nil ∙ sym h
  parse-IsWritten (some t) s h = ap (parse chars) h.0 ∙ parse-serialize chars table s h.1

  pub bullets-IsBullet :
      (k : Section) (s : Sections)
      → IsProfile chars table s
      → All (IsBullet chars table) (bullets_of k s)
  bullets-IsBullet self s h = h.own
  bullets-IsBullet relationship s h = h.shared
  bullets-IsBullet user s h = h.noticed

  pub set_bullets-IsProfile :
      (k : Section) (bs : List Bullet) (s : Sections)
      → IsProfile chars table s
      → All (IsBullet chars table) bs
      → IsProfile chars table (set_bullets k bs s)
  set_bullets-IsProfile self bs s h a = record { own = a; shared = h.shared; noticed = h.noticed }
  set_bullets-IsProfile relationship bs s h a = record {
    own = h.own;
    shared = a;
    noticed = h.noticed;
  }
  set_bullets-IsProfile user bs s h a = record { own = h.own; shared = h.shared; noticed = a }

  prefix_of-lower : (k : Section) → (leb b'a' (prefix_of k) && leb (prefix_of k) b'z') ≡ true
  prefix_of-lower self = refl
  prefix_of-lower relationship = refl
  prefix_of-lower user = refl

  next_id-OneLine : (k : Section) (n : ℕ) → OneLine (prefix_of k ∷ chars.show n)
  next_id-OneLine self n = (numeral n).2
  next_id-OneLine relationship n = (numeral n).2
  next_id-OneLine user n = (numeral n).2

  pub new_bullet-IsBullet :
      (k : Section) (s : Sections) (c : Call)
      → IsPinnable c
      → IsBullet chars table (new_bullet chars k s c)
  unfolding next_id
  new_bullet-IsBullet k s c p = record {
    letter = prefix_of k;
    number = chars.show (greatest_number chars k (bullets_of k s) + 1);
    id_of = refl;
    lower = prefix_of-lower k;
    some_digit = (numeral (greatest_number chars k (bullets_of k s) + 1)).0;
    digits = (numeral (greatest_number chars k (bullets_of k s) + 1)).1;
    dated = p.dated;
    id_line = next_id-OneLine k (greatest_number chars k (bullets_of k s) + 1);
    date_line = p.date_line;
    text_line = p.text_line;
    solid = p.solid;
  }

  revised-IsBullet :
      (b : Bullet) (c : Call)
      → IsBullet chars table b
      → IsPinnable c
      → IsBullet chars table (revised chars b c)
  revised-IsBullet b c h p = record {
    letter = h.letter;
    number = h.number;
    id_of = h.id_of;
    lower = h.lower;
    some_digit = h.some_digit;
    digits = h.digits;
    dated = p.dated;
    id_line = h.id_line;
    date_line = p.date_line;
    text_line = p.text_line;
    solid = p.solid;
  }

  -- The file behind a commit: a profile, the new one or the old one.
  abbrev pub Kept : Option Text → Type 0
  Kept file = (s : Sections) × IsWritten file s

  commit-Kept :
      (bounded : Bool) (most : ℕ) (file : Option Text) (s : Sections) (a : PinAnswer) (e : PinEvent)
      → Kept file
      → IsProfile chars table s
      → Kept (commit bounded most file s a e).file
  unfolding commit
  commit-Kept bounded most file s a e old h =
      elim (Bool-cases (bounded && ltb most (length (serialize s)))) [
        | inl y ↦ rw y old
        | inr n ↦ rw n (s, (refl, h))
      ]

  add-Kept :
      (k : Section) (b : Option Bullet) (s : Sections) (file : Option Text) (c : Call)
      → IsPinnable c
      → IsWritten file s
      → Kept (add_unless chars b k s file c).file
  add-Kept k (some b) s file c p w = (s, w)
  add-Kept k none s file c p w =
      let h = IsWritten-IsProfile file s w in
      commit-Kept true c.max_chars file
        (set_bullets k (bullets_of k s ++ new_bullet chars k s c ∷ []) s) _ _ (s, w)
        (set_bullets-IsProfile k (bullets_of k s ++ new_bullet chars k s c ∷ []) s h (
          All-snoc (IsBullet chars table) (bullets_of k s) (new_bullet chars k s c)
            (bullets-IsBullet k s h) (new_bullet-IsBullet k s c p)))

  add_in-Kept :
      (o : Option Section) (s : Sections) (file : Option Text) (c : Call)
      → IsPinnable c
      → IsWritten file s
      → Kept (apply_add chars o s file c).file
  add_in-Kept none s file c p w = (s, w)
  add_in-Kept (some k) s file c p w =
      add-Kept k (with_text (strip_incoming_tag chars c.text) (bullets_of k s)) s file c p w

  replace-Kept :
      (o : Option Placed) (s : Sections) (file : Option Text) (c : Call)
      → Found (IsBullet chars table) o
      → IsPinnable c
      → IsWritten file s
      → Kept (apply_replace chars o s file c).file
  replace-Kept none s file c f p w = (s, w)
  replace-Kept (some x) s file c f p w =
      let h = IsWritten-IsProfile file s w in
      commit-Kept true c.max_chars file
        (set_bullets x.section (set_at x.index (revised chars x.bullet c) (bullets_of x.section s))
          s)
        _ _ (s, w)
        (set_bullets-IsProfile x.section
          (set_at x.index (revised chars x.bullet c) (bullets_of x.section s)) s h
          (All-set_at (IsBullet chars table) x.index (revised chars x.bullet c)
            (bullets_of x.section s) (bullets-IsBullet x.section s h)
            (revised-IsBullet x.bullet c f p)))

  remove-Kept :
      (o : Option Placed) (s : Sections) (file : Option Text) (c : Call)
      → IsWritten file s
      → Kept (apply_remove chars o s file c).file
  remove-Kept none s file c w = (s, w)
  remove-Kept (some x) s file c w =
      let h = IsWritten-IsProfile file s w in
      commit-Kept false c.max_chars file
        (set_bullets x.section (pop_at x.index (bullets_of x.section s)) s) _ _ (s, w)
        (set_bullets-IsProfile x.section (pop_at x.index (bullets_of x.section s)) s h (
          All-pop_at (IsBullet chars table) x.index (bullets_of x.section s)
            (bullets-IsBullet x.section s h)))

  op-Kept :
      (op : Op) (s : Sections) (file : Option Text) (c : Call)
      → IsPinnable c
      → IsWritten file s
      → Kept (apply_op chars op s file c).file
  op-Kept add s file c p w = add_in-Kept c.section s file c p w
  op-Kept replace s file c p w =
      let h = IsWritten-IsProfile file s w in
      replace-Kept (find chars s c.target) s file c
        (Found-find (IsBullet chars table) chars s c.target h.own h.shared h.noticed) p w
  op-Kept remove s file c p w = remove-Kept (find chars s c.target) s file c w
  op-Kept other s file c p w = (s, w)

  -- Whatever is asked for, where the text is one line that is not empty: on a missing file or a written
  -- profile, the file is missing or a written profile again.
  pub apply-Kept :
      (file : Option Text) (c : Call) → Kept file → IsPinnable c → Kept (apply chars file c).file
  unfolding apply
  apply-Kept file c (s, w) p = rw (parse-IsWritten file s w) (op-Kept c.op s file c p w)
