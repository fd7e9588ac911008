-- ===== src/Profile.antt =====
-- src/dollos/mind/self_profile.py: the entries that Doll pins to herself, a text file with three sections
-- of bullets. A text is its code points; `str.isspace`, the digits of a regex, `int` and `str` of a
-- number are the parameter `Chars`.
pub mod Edits
pub mod Apply
pub mod Bullets
pub mod RoundTrip
pub mod Found
pub mod Pins
pub mod Additions
pub mod Breaks
mod Examples
use doll_os.Prelude.Texts.{codes, starts_with, strip, behind}
use doll_os.Prelude.{
  ℕ, ◌+◌, Bool, true, false, ◌&&◌, Option, none, some, List, [], ◌∷◌, ◌++◌, map, leb, eqb, drop,
  if◌then◌else◌, ◌>>=◌,
}
use doll_os.Speech.{run_of, after_run}
use doll_os.Evolution.Texts.{same}
use doll_os.Wal.Lines.{split_lines, join_lines}

abbrev pub Text : Type 0
Text = List ℕ

-- `digit` is `\d`; `to_int` is `int` where the text is all digits.
pub record Chars : Type 0 where
  pub blank : ℕ → Bool
  pub digit : ℕ → Bool
  pub to_int : Text → Option ℕ
  pub show : ℕ → Text

pub data Section : Type 0 where
  self relationship user : Section

abbrev pub section_order : List Section
section_order = self ∷ relationship ∷ user ∷ []

-- `SECTION_TITLES`
abbrev pub section_title : Section → Text
section_title self = codes "What I've learned about myself"
section_title relationship = codes "Me and my owner"
section_title user = codes "What I've noticed about my owner"

-- `_LEGACY_TITLES`
abbrev pub legacy_title : Section → Text
legacy_title self = codes "我學到的自己"
legacy_title relationship = codes "我和主人"
legacy_title user = codes "我注意到的主人"

-- `_PREFIX`
abbrev pub prefix_of : Section → ℕ
prefix_of self = b's'
prefix_of relationship = b'r'
prefix_of user = b'u'

pub record Bullet : Type 0 where
  pub id : Text
  pub date : Text
  pub text : Text

pub record Sections : Type 0 where
  pub of_self : List Bullet
  pub of_relationship : List Bullet
  pub of_user : List Bullet

abbrev pub empty_sections : Sections
empty_sections = record { of_self = []; of_relationship = []; of_user = [] }

-- `sections[key]`
abbrev pub bullets_of : Section → Sections → List Bullet
bullets_of self s = s.of_self
bullets_of relationship s = s.of_relationship
bullets_of user s = s.of_user

abbrev pub set_bullets : Section → List Bullet → Sections → Sections
set_bullets self bs s = record s { of_self = bs }
set_bullets relationship bs s = record s { of_relationship = bs }
set_bullets user bs s = record s { of_user = bs }

-- `_TITLE_TO_SECTION.get(title)`
unfoldable pub section_of_title : Text → Option Section
unfolding same
section_of_title title =
    if same title (section_title self)
    then some self
    else if same title (section_title relationship)
    then some relationship
    else if same title (section_title user)
    then some user
    else if same title (legacy_title self)
    then some self
    else if same title (legacy_title relationship)
    then some relationship
    else if same title (legacy_title user)
    then some user
    else none

-- The middle dot of a bullet.
abbrev pub dot : ℕ
dot = 0xb7

-- A letter and what digits stand behind it.
abbrev pub id_tail : ℕ → Text → Text → Option (Text × Text)
id_tail c [] rest = none
id_tail c (d ∷ ds) rest = some (c ∷ d ∷ ds, rest)

-- `\d{4}-\d{2}-\d{2}`: a digit, or the character that is given.
abbrev pub date_shape : List (Option ℕ)
date_shape = none ∷ none ∷ none ∷ none ∷ some b'-' ∷ none ∷ none ∷ some b'-' ∷ none ∷ none ∷ []

abbrev pub put_front : ℕ → Option (Text × Text) → Option (Text × Text)
put_front c none = none
put_front c (some (s, rest)) = some (c ∷ s, rest)

-- What a line does to the section that stands open and to what is read.
abbrev pub add_bullet : Option Section → Option Bullet → Sections → Sections
add_bullet none b s = s
add_bullet (some k) none s = s
add_bullet (some k) (some b) s = set_bullets k (bullets_of k s ++ b ∷ []) s

module _ (chars : Chars) where
  open chars use {blank, digit}

  -- `[a-z]\d+`
  unfoldable pub read_id : Text → Option (Text × Text)
  unfolding run_of after_run
  read_id [] = none
  read_id (c ∷ s) =
      if leb b'a' c && leb c b'z' then id_tail c (run_of digit s) (after_run digit s) else none

  abbrev pub fits : Option ℕ → ℕ → Bool
  fits none c = digit c
  fits (some d) c = eqb d c

  unfoldable pub read_shape : List (Option ℕ) → Text → Option (Text × Text)
  read_shape [] s = some ([], s)
  read_shape (o ∷ shape) [] = none
  read_shape (o ∷ shape) (c ∷ s) = if fits o c then put_front c (read_shape shape s) else none

  -- `_BULLET_RE.match(stripped)`
  unfoldable pub read_bullet : Text → Option Bullet
  unfolding behind read_id read_shape
  read_bullet line = do
    opened ← behind (codes "- [") line
    id ← read_id opened
    dotted ← behind (dot ∷ []) id.1
    date ← read_shape date_shape dotted
    text ← behind (codes "] ") date.1
    some (record { id = id.0; date = date.0; text = text })

  unfoldable pub parse_lines : List Text → Option Section → Sections → Sections
  unfolding strip starts_with section_of_title read_bullet
  parse_lines [] current s = s
  parse_lines (line ∷ lines) current s =
      let stripped = strip blank line in
      let title = starts_with (codes "## ") stripped in
      parse_lines lines
        (if title then section_of_title (strip blank (drop 3 stripped)) else current)
        (if title then s else add_bullet current (read_bullet stripped) s)

  -- `_parse`
  unfoldable pub parse : Text → Sections
  unfolding parse_lines
  parse text = parse_lines (split_lines text) none empty_sections

abbrev pub format_bullet : Bullet → Text
format_bullet b = codes "- [" ++ (b.id ++ (dot ∷ (b.date ++ (codes "] " ++ b.text))))

unfoldable pub section_lines : Section → List Bullet → List Text
section_lines k bs = (codes "## " ++ section_title k) ∷ map format_bullet bs

-- `_serialize`: the lines are never none.
unfoldable pub serialize : Sections → Text
unfolding section_lines
serialize s = join_lines (
    section_lines self s.of_self
    ++ (section_lines relationship s.of_relationship ++ section_lines user s.of_user))
