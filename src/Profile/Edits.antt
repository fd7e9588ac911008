-- ===== src/Profile/Edits.antt =====
-- How src/dollos/mind/self_profile.py finds an entry, cleans a text and numbers a new entry.
use doll_os.Prelude.Texts.{codes, starts_with, strip, strip_left, no_text}
use doll_os.Prelude.{
  ℕ, suc, ◌+◌, Bool, true, not, ◌&&◌, ◌||◌, Option, none, some, List, [], ◌∷◌, ◌++◌, max, eqb, drop,
  if◌then◌else◌, keep, any,
}
use doll_os.Speech.{run_of}
use doll_os.Attention.Names.{contains}
use doll_os.Evolution.Texts.{same}
use doll_os.Profile.{
  Text, Chars, Section, self, relationship, user, Bullet, Sections, prefix_of, dot,
}

-- An entry in its place.
pub record Placed : Type 0 where
  pub section : Section
  pub index : ℕ
  pub bullet : Bullet

abbrev pub place_from : Section → ℕ → List Bullet → List Placed
place_from k i [] = []
place_from k i (b ∷ bs) = record { section = k; index = i; bullet = b } ∷ place_from k (suc i) bs

-- `all_bullets`
unfoldable pub all_bullets : Sections → List Placed
all_bullets s =
    place_from self 0 s.of_self
    ++ (place_from relationship 0 s.of_relationship ++ place_from user 0 s.of_user)

abbrev pub first_of : (Placed → Bool) → List Placed → Option Placed
first_of p [] = none
first_of p (x ∷ xs) = if p x then some x else first_of p xs

abbrev pub the_only : List Placed → Option Placed
the_only [] = none
the_only (x ∷ []) = some x
the_only (x ∷ y ∷ xs) = none

abbrev pub or_else {ℓ} : {A : Type ℓ} → Option A → Option A → Option A
or_else none o = o
or_else (some a) o = some a

-- The part of a text before a character, and the part behind it, if it is there.
abbrev pub cut_at_char : ℕ → Text → Option (Text × Text)
cut_at_char d [] = none
cut_at_char d (c ∷ s) =
    if eqb c d
    then some ([], s)
    else elim (cut_at_char d s) [ none ↦ none | some r ↦ some (c ∷ r.0, r.1) ]

abbrev pub find_by_id_in : List Placed → Option Text → Option Placed
find_by_id_in entries none = none
find_by_id_in entries (some token) = first_of (λ x. same x.bullet.id token) entries

abbrev pub find_by_text_in : List Placed → Text → Option Placed
find_by_text_in entries [] = none
find_by_text_in entries (c ∷ cleaned) =
    or_else (first_of (λ x. same x.bullet.text (c ∷ cleaned)) entries) (
      the_only (
        keep (λ x. contains (c ∷ cleaned) x.bullet.text || contains x.bullet.text (c ∷ cleaned))
          entries))

abbrev pub larger_of : Option ℕ → ℕ → ℕ
larger_of none n = n
larger_of (some m) n = max m n

module _ (chars : Chars) where
  open chars use {blank, digit, to_int, show}

  -- `_ID_TOKEN_RE.search(target)`
  unfoldable pub id_token : Text → Option Text
  unfolding run_of
  id_token [] = none
  id_token (c ∷ s) =
      let later = id_token s in
      let digits = run_of digit s in
      if (eqb c b's' || eqb c b'r' || eqb c b'u') && not (no_text digits)
      then some (c ∷ digits)
      else later

  -- What stands behind a tag: `keeps` says which tags are taken off.
  abbrev pub untag : (Text → Bool) → Text → Text → Text
  untag keeps whole [] = whole
  untag keeps whole (c ∷ s) =
      if eqb c b'['
      then elim (cut_at_char b']' s) [
        | none ↦ whole
        | some r ↦ if keeps r.0 then strip_left blank r.1 else whole
      ]
      else whole

  abbrev pub skip_dash : Text → Text
  skip_dash [] = []
  skip_dash (c ∷ s) = if eqb c b'-' then s else c ∷ s

  -- `_clean_target_text`
  unfoldable pub clean_target_text : Text → Text
  unfolding strip strip_left
  clean_target_text target =
      strip blank
        (untag (λ tag. true) target (strip_left blank (skip_dash (strip_left blank target))))

  -- `_strip_incoming_tag`
  unfoldable pub strip_incoming_tag : Text → Text
  unfolding strip strip_left starts_with
  strip_incoming_tag text =
      let t = strip_left blank text in
      strip blank
        (untag (λ tag. any (eqb dot) tag) text (if starts_with (codes "- ") t then drop 2 t else t))

  -- `_find`
  unfoldable pub find : Sections → Text → Option Placed
  unfolding all_bullets id_token clean_target_text same contains
  find s target =
      or_else (find_by_id_in (all_bullets s) (id_token target))
        (find_by_text_in (all_bullets s) (clean_target_text target))

  -- The number of an id that has the section's prefix.
  abbrev pub number_of : Section → Text → Option ℕ
  number_of k [] = none
  number_of k (c ∷ s) = if eqb c (prefix_of k) then to_int s else none

  abbrev pub greatest_number : Section → List Bullet → ℕ
  greatest_number k [] = 0
  greatest_number k (b ∷ bs) = larger_of (number_of k b.id) (greatest_number k bs)

  -- `_next_id`: no number and a greatest number of 0 both lead to 1.
  unfoldable pub next_id : Section → List Bullet → Text
  next_id k bs = prefix_of k ∷ show (greatest_number k bs + 1)
