-- ===== src/Profile/Bullets.antt =====
-- One line of the profile: what a bullet and a title are read back as.
use doll_os.Prelude.Texts.{codes, strip, strip_left, strip_right, behind}
use doll_os.Prelude.{
  ℕ, ◌<◌, ◌≡◌, ◌≢◌, refl, sym, ap, ◌∙◌, Bool, true, false, not, ◌&&◌, Option, none, some, List, [],
  ◌∷◌, ◌++◌, arith, leb, if◌then◌else◌, all, some_inj, ◌>>=◌,
}
use doll_os.Speech.{run_of, after_run}
use doll_os.Wal.Lines.{OneLine}
use doll_os.Profile.{
  Text, Chars, Section, self, relationship, user, section_title, Bullet, section_of_title, dot,
  read_id, date_shape, fits, put_front, read_shape, id_tail, read_bullet, format_bullet,
}

-- What is known of the character tables: what stands in ASCII behind the space is no white space, and the
-- middle dot is no digit.
pub record IsTable (chars : Chars) : Type 0 where
  pub ink : (c : ℕ) → 32 < c → c < 127 → chars.blank c ≡ false
  pub dot_digit : chars.digit dot ≡ false
  pub numeral :
      (n : ℕ)
      → (chars.show n ≢ [])
        × (all chars.digit (chars.show n) ≡ true)
        × OneLine (chars.show n)
        × (chars.to_int (chars.show n) ≡ some n)

behind-append : (token s : Text) → behind token (token ++ s) ≡ some s
unfolding behind
behind-append [] s = refl
behind-append (c ∷ token) s = ground (arith, behind-append token s)

-- The text has a last character, and it is no white space.
unfoldable pub ends_solid : (ℕ → Bool) → Text → Bool
ends_solid blank [] = false
ends_solid blank (c ∷ []) = not (blank c)
ends_solid blank (c ∷ d ∷ s) = ends_solid blank (d ∷ s)

ends_solid-cons :
    (blank : ℕ → Bool) (c : ℕ) (s : Text)
    → ends_solid blank s ≡ true
    → ends_solid blank (c ∷ s) ≡ true
unfolding ends_solid
ends_solid-cons blank c [] h = cc
ends_solid-cons blank c (d ∷ s) h = h

pub ends_solid-append :
    (blank : ℕ → Bool) (s t : Text) → ends_solid blank t ≡ true → ends_solid blank (s ++ t) ≡ true
ends_solid-append blank [] t h = h
ends_solid-append blank (c ∷ s) t h =
    ends_solid-cons blank c (s ++ t) (ends_solid-append blank s t h)

strip_right-solid :
    (blank : ℕ → Bool) (s : Text) → ends_solid blank s ≡ true → strip_right blank s ≡ s
unfolding strip_right ends_solid
strip_right-solid blank [] h = refl
strip_right-solid blank (c ∷ []) h = ground (arith, h)
strip_right-solid blank (c ∷ d ∷ s) h = rw (strip_right-solid blank (d ∷ s) h) refl

-- A text that neither begins nor ends with white space.
pub strip-solid :
    (blank : ℕ → Bool) (c : ℕ) (s : Text)
    → blank c ≡ false
    → ends_solid blank (c ∷ s) ≡ true
    → strip blank (c ∷ s) ≡ c ∷ s
unfolding strip strip_left
strip-solid blank c s b h = rw b (strip_right-solid blank (c ∷ s) h)

run_of-append :
    (p : ℕ → Bool) (s : Text) (c : ℕ) (rest : Text)
    → all p s ≡ true
    → p c ≡ false
    → (run_of p (s ++ c ∷ rest) ≡ s) × (after_run p (s ++ c ∷ rest) ≡ c ∷ rest)
unfolding run_of after_run
run_of-append p [] c rest a n = rw n (refl, refl)
run_of-append p (d ∷ s) c rest a n = ground (arith, run_of-append p s c rest, a, n)

abbrev pub title_line : Section → Text
title_line k = codes "## " ++ section_title k

module _ (chars : Chars) (table : IsTable chars) where
  open chars use {blank, digit}
  open table use {ink, dot_digit}

  shape-append :
      (b : Bool) (c : ℕ) (o q : Option (Text × Text)) (rest : Text) (p : Text × Text)
      → (if b then put_front c o else none) ≡ some p
      → ((r : Text × Text) → o ≡ some r → q ≡ some (r.0, r.1 ++ rest))
      → (if b then put_front c q else none) ≡ some (p.0, p.1 ++ rest)
  shape-append false c o q rest p h f = cc
  shape-append true c none q rest p h f = cc
  shape-append true c (some r) q rest p h f =
      rw (f r refl) (ap (λ t. some (t.0, t.1 ++ rest)) (some_inj h))

  read_shape-append :
      (shape : List (Option ℕ)) (s rest : Text) (p : Text × Text)
      → read_shape chars shape s ≡ some p
      → read_shape chars shape (s ++ rest) ≡ some (p.0, p.1 ++ rest)
  unfolding read_shape
  read_shape-append [] s rest p h = ap (λ q. some (q.0, q.1 ++ rest)) (some_inj h)
  read_shape-append (o ∷ shape) [] rest p h = cc
  read_shape-append (o ∷ shape) (c ∷ s) rest p h =
      shape-append (fits chars o c) c (read_shape chars shape s)
        (read_shape chars shape (s ++ rest)) rest p h (λ r. read_shape-append shape s rest r)

  OneLine-append : (s t : Text) → OneLine s → OneLine t → OneLine (s ++ t)
  OneLine-append [] t h k = k
  OneLine-append (c ∷ s) t h k = ground (arith, OneLine-append s t, h, k)

  -- A bullet as the module writes it: an id and a date of the shapes that are read, and a text that is
  -- one line and ends in no white space.
  pub record IsBullet (b : Bullet) : Type 0 where
    pub letter : ℕ
    pub number : Text
    pub id_of : b.id ≡ letter ∷ number
    pub lower : (leb b'a' letter && leb letter b'z') ≡ true
    pub some_digit : number ≢ []
    pub digits : all digit number ≡ true
    pub dated : read_shape chars date_shape b.date ≡ some (b.date, [])
    pub id_line : OneLine b.id
    pub date_line : OneLine b.date
    pub text_line : OneLine b.text
    pub solid : ends_solid blank b.text ≡ true

  read_id-append :
      (letter : ℕ) (number rest : Text)
      → (leb b'a' letter && leb letter b'z') ≡ true
      → number ≢ []
      → all digit number ≡ true
      → read_id chars ((letter ∷ number) ++ dot ∷ rest) ≡ some (letter ∷ number, dot ∷ rest)
  unfolding read_id
  read_id-append letter [] rest l n a = absurd (n refl)
  read_id-append letter (d ∷ ds) rest l n a =
      let r = run_of-append digit (d ∷ ds) dot rest a dot_digit in
      rw l (λ i. id_tail letter (r.0 i) (r.1 i))

  id_of-append :
      {b : Bullet} (rest : Text)
      → IsBullet b
      → read_id chars (b.id ++ dot ∷ rest) ≡ some (b.id, dot ∷ rest)
  id_of-append {b} rest h =
      ap (λ t. read_id chars (t ++ dot ∷ rest)) h.id_of
      ∙ read_id-append h.letter h.number rest h.lower h.some_digit h.digits
      ∙ ap (λ t. some (t, dot ∷ rest)) (sym h.id_of)

  pub read_bullet-format : (b : Bullet) → IsBullet b → read_bullet chars (format_bullet b) ≡ some b
  unfolding read_bullet
  read_bullet-format b h =
      let rest = codes "] " ++ b.text in
      let end = λ (id : Text) (date : Text × Text).
        behind (codes "] ") date.1 >>= (λ t. some (record { id = id; date = date.0; text = t })) in
      ap
        (λ (o : Option (Text × Text)). o >>= (λ id.
          behind (dot ∷ []) id.1
          >>= (λ d. read_shape chars date_shape d >>= (λ date. end id.0 date))))
        (id_of-append (b.date ++ rest) h)
      ∙ ap (λ (o : Option (Text × Text)). o >>= (λ date. end b.id date))
          (read_shape-append date_shape b.date rest (b.date, []) h.dated)

  pub format-OneLine : (b : Bullet) → IsBullet b → OneLine (format_bullet b)
  format-OneLine b h =
      OneLine-append (codes "- [") (b.id ++ (dot ∷ (b.date ++ (codes "] " ++ b.text)))) refl (
        OneLine-append b.id (dot ∷ (b.date ++ (codes "] " ++ b.text))) h.id_line (
          OneLine-append (dot ∷ []) (b.date ++ (codes "] " ++ b.text)) refl (
            OneLine-append b.date (codes "] " ++ b.text) h.date_line
              (OneLine-append (codes "] ") b.text refl h.text_line))))

  -- What a line that a bullet is written to is stripped to.
  pub strip-format : (b : Bullet) → IsBullet b → strip blank (format_bullet b) ≡ format_bullet b
  strip-format b h =
      strip-solid blank b'-' (codes " [" ++ (b.id ++ (dot ∷ (b.date ++ (codes "] " ++ b.text)))))
        (ink b'-' (omega arith) (omega arith))
        (ends_solid-append blank (codes "- [") (b.id ++ (dot ∷ (b.date ++ (codes "] " ++ b.text))))
          (ends_solid-append blank b.id (dot ∷ (b.date ++ (codes "] " ++ b.text))) (
            ends_solid-append blank (dot ∷ []) (b.date ++ (codes "] " ++ b.text)) (
              ends_solid-append blank b.date (codes "] " ++ b.text)
                (ends_solid-append blank (codes "] ") b.text h.solid)))))

  pub strip-title :
      (k : Section)
      → (strip blank (title_line k) ≡ title_line k)
        × (strip blank (section_title k) ≡ section_title k)
  unfolding ends_solid
  strip-title self =
      let solid = ap not (ink b'f' (omega arith) (omega arith)) in
      (
        strip-solid blank b'#' _ (ink b'#' (omega arith) (omega arith)) solid,
        strip-solid blank b'W' _ (ink b'W' (omega arith) (omega arith)) solid,
      )
  strip-title relationship =
      let solid = ap not (ink b'r' (omega arith) (omega arith)) in
      (
        strip-solid blank b'#' _ (ink b'#' (omega arith) (omega arith)) solid,
        strip-solid blank b'M' _ (ink b'M' (omega arith) (omega arith)) solid,
      )
  strip-title user =
      let solid = ap not (ink b'r' (omega arith) (omega arith)) in
      (
        strip-solid blank b'#' _ (ink b'#' (omega arith) (omega arith)) solid,
        strip-solid blank b'W' _ (ink b'W' (omega arith) (omega arith)) solid,
      )

pub section_of_title-title : (k : Section) → section_of_title (section_title k) ≡ some k
unfolding section_of_title
section_of_title-title self = refl
section_of_title-title relationship = refl
section_of_title-title user = refl
