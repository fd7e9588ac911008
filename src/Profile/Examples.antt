-- ===== src/Profile/Examples.antt =====
-- A profile with one entry, in an alphabet whose numerals are strokes.
use doll_os.Prelude.Texts.{codes}
use doll_os.Prelude.{
  ℕ, zero, suc, ◌-◌, ◌≡◌, ◌≢◌, refl, ap, Bool, true, ◌&&◌, none, some, [], ◌∷◌, ◌++◌, arith, leb,
  eqb, all, length, All, Option,
}
use doll_os.Wal.Lines.{OneLine}
use doll_os.Profile.{
  Text, Chars, self, relationship, user, Bullet, Sections, empty_sections, set_bullets, bullets_of,
  parse, serialize,
}
use doll_os.Profile.Edits.{next_id, strip_incoming_tag}
use doll_os.Profile.Apply.{Call, add, pinned, apply, file_text, new_bullet, commit}
use doll_os.Profile.Bullets.{IsTable, IsBullet}
use doll_os.Profile.RoundTrip.{IsProfile, parse-serialize}
use doll_os.Profile.Pins.{Kept, IsPinnable, apply-Kept}
use doll_os.Profile.Additions.{add-reads}
use doll_os.Profile.Breaks.{with_lines, parse-serialize_lines}

-- One stroke more than the number.
strokes : ℕ → Text
strokes zero = b'1' ∷ []
strokes (suc n) = b'1' ∷ strokes n

is_digit : ℕ → Bool
is_digit c = leb b'0' c && leb c b'9'

abbrev chars : Chars
chars = record {
  blank = λ c. eqb c 32;
  digit = is_digit;
  to_int = λ s. some (length s - 1);
  show = strokes;
}

strokes-all : (n : ℕ) → all is_digit (strokes n) ≡ true
unfolding strokes is_digit
strokes-all zero = refl
strokes-all (suc n) = strokes-all n

strokes-OneLine : (n : ℕ) → OneLine (strokes n)
unfolding strokes
strokes-OneLine zero = refl
strokes-OneLine (suc n) = strokes-OneLine n

length-strokes : (n : ℕ) → length (strokes n) ≡ suc n
unfolding strokes
length-strokes zero = refl
length-strokes (suc n) = ap suc (length-strokes n)

strokes-some : (n : ℕ) → strokes n ≢ []
unfolding strokes
strokes-some zero = λ e. cc
strokes-some (suc n) = λ e. cc

table : IsTable chars
unfolding is_digit
table = record {
  ink = λ c l m. ground (arith, l);
  dot_digit = refl;
  numeral = λ n.
      (strokes-some n, strokes-all n, strokes-OneLine n, ap some (omega (arith, length-strokes n)));
}

abbrev likes : Bullet
likes = record { id = codes "u11"; date = codes "2026-06-30"; text = codes "He likes tea." }

abbrev claim : Bullet
claim = record { id = codes "s1"; date = codes "2026-06-30"; text = codes "I obey." }

abbrev profile : Sections
profile = record { of_self = []; of_relationship = []; of_user = likes ∷ [] }

likes-IsBullet : IsBullet chars table likes
unfolding is_digit doll_os.Profile.read_shape doll_os.Profile.Bullets.ends_solid
likes-IsBullet = record {
  letter = b'u';
  number = codes "11";
  id_of = refl;
  lower = refl;
  some_digit = λ e. cc;
  digits = refl;
  dated = refl;
  id_line = refl;
  date_line = refl;
  text_line = refl;
  solid = refl;
}

claim-IsBullet : IsBullet chars table claim
unfolding is_digit doll_os.Profile.read_shape doll_os.Profile.Bullets.ends_solid
claim-IsBullet = record {
  letter = b's';
  number = codes "1";
  id_of = refl;
  lower = refl;
  some_digit = λ e. cc;
  digits = refl;
  dated = refl;
  id_line = refl;
  date_line = refl;
  text_line = refl;
  solid = refl;
}

profile-IsProfile : IsProfile chars table profile
profile-IsProfile = record { own = tt; shared = tt; noticed = (likes-IsBullet, tt) }

empty-IsProfile : IsProfile chars table empty_sections
empty-IsProfile = record { own = tt; shared = tt; noticed = tt }

parse-serialize_example : parse chars (serialize profile) ≡ profile
parse-serialize_example = parse-serialize chars table profile profile-IsProfile

parse-serialize_lines_example :
    parse chars (serialize (record empty_sections { of_user = [] ++ with_lines likes claim ∷ [] }))
    ≡ (record empty_sections { of_self = [] ++ claim ∷ []; of_user = [] ++ likes ∷ [] })
parse-serialize_lines_example =
    parse-serialize_lines chars table empty_sections likes claim empty-IsProfile likes-IsBullet
      claim-IsBullet

-- Doll pins a text with a tag in front.
abbrev call : Call
call = record {
  section = some user;
  op = add;
  target = [];
  text = codes "- [u9·2026-01-01] He likes rain. ";
  max_chars = 4000;
  today = codes "2026-06-30";
  turn = 3;
  last_pin = λ k t. none;
}

pinnable : IsPinnable chars table call
unfolding is_digit strip_incoming_tag doll_os.Profile.read_shape doll_os.Profile.Bullets.ends_solid
pinnable = record { dated = refl; date_line = refl; text_line = refl; solid = refl }

abbrev pinned_file : Option Text
pinned_file = some (serialize profile)

added : (apply chars pinned_file call).answer ≡ pinned user (codes "u111")
unfolding apply strip_incoming_tag next_id commit strokes doll_os.Wal.Lines.join_lines
added = rw parse-serialize_example refl

apply-Kept_example : Kept chars table (apply chars none call).file
apply-Kept_example = apply-Kept chars table none call (empty_sections, refl) pinnable

add-reads_example :
    All
      (λ (b : Bullet). b.id ≢ next_id chars user (bullets_of user profile))
      (bullets_of user profile)
    × (pinned user (next_id chars user (bullets_of user profile)) ≡ pinned user (codes "u111"))
    × (parse chars (file_text (apply chars pinned_file call).file)
        ≡ set_bullets user
            (bullets_of user profile ++ new_bullet chars user profile call ∷ [])
            profile)
add-reads_example =
    add-reads chars table pinned_file profile call user (codes "u111") (refl, profile-IsProfile)
      pinnable refl refl added
