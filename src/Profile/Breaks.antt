-- ===== src/Profile/Breaks.antt =====
-- A text of several lines. `apply` takes one, and each of its lines is read back by itself.
use mathlib.Core.List.{append_assoc, append-nil}
use doll_os.Prelude.{◌≡◌, refl, sym, ap, ◌∙◌, none, some, List, [], ◌∷◌, ◌++◌, map}
use doll_os.Wal.Lines.{join_lines, split_lines-join}
use doll_os.Profile.{
  Text, Chars, self, relationship, user, Bullet, Sections, empty_sections, parse_lines, parse,
  format_bullet, section_lines, serialize,
}
use doll_os.Profile.Bullets.{IsTable, IsBullet, title_line}
use doll_os.Profile.RoundTrip.{
  IsProfile, parse_lines-section, parse_lines-nil, section_lines-OneLine, All-append,
}
use doll_os.Profile.Found.{All-snoc}

-- An entry whose text goes on with the title of the self section and another entry.
abbrev pub with_lines : Bullet → Bullet → Bullet
with_lines b q = record b { text = b.text ++ 10 ∷ (title_line self ++ 10 ∷ format_bullet q) }

join_lines-split : (xs ys : List Text) → join_lines (xs ++ ys) ≡ join_lines xs ++ join_lines ys
unfolding join_lines
join_lines-split [] ys = refl
join_lines-split (x ∷ xs) ys = simp (join_lines-split xs ys, append_assoc)

map-snoc :
    (bs : List Bullet) (b : Bullet)
    → map format_bullet (bs ++ b ∷ []) ≡ map format_bullet bs ++ format_bullet b ∷ []
map-snoc [] b = refl
map-snoc (c ∷ bs) b = ap (λ t. format_bullet c ∷ t) (map-snoc bs b)

broken_line :
    (b q : Bullet)
    → join_lines (format_bullet (with_lines b q) ∷ [])
      ≡ join_lines (format_bullet b ∷ title_line self ∷ format_bullet q ∷ [])
unfolding join_lines
broken_line b q = simp append_assoc

section_lines-broken :
    (bs : List Bullet) (b q : Bullet)
    → join_lines (section_lines user (bs ++ with_lines b q ∷ []))
      ≡ join_lines (section_lines user (bs ++ b ∷ []) ++ section_lines self (q ∷ []))
unfolding section_lines
section_lines-broken bs b q =
    let old = section_lines user bs in
    ap (λ t. join_lines (title_line user ∷ t)) (map-snoc bs (with_lines b q))
    ∙ join_lines-split old (format_bullet (with_lines b q) ∷ [])
    ∙ ap (λ t. join_lines old ++ t) (broken_line b q)
    ∙ sym (join_lines-split old (format_bullet b ∷ section_lines self (q ∷ [])))
    ∙ ap (λ t. join_lines (title_line user ∷ t))
        (sym (
            append_assoc (map format_bullet bs) (format_bullet b ∷ [])
              (section_lines self (q ∷ [])))
          ∙ ap (λ t. t ++ section_lines self (q ∷ [])) (sym (map-snoc bs b)))

serialize-broken :
    (s : Sections) (b q : Bullet)
    → serialize (record s { of_user = s.of_user ++ with_lines b q ∷ [] })
      ≡ join_lines (
          section_lines self s.of_self
          ++ (section_lines relationship s.of_relationship
              ++ (section_lines user (s.of_user ++ b ∷ []) ++ section_lines self (q ∷ []))))
unfolding serialize
serialize-broken s b q =
    let own = section_lines self s.of_self in
    let shared = section_lines relationship s.of_relationship in
    let broken = section_lines user (s.of_user ++ with_lines b q ∷ []) in
    let whole = section_lines user (s.of_user ++ b ∷ []) ++ section_lines self (q ∷ []) in
    join_lines-split own (shared ++ broken)
    ∙ ap (λ t. join_lines own ++ t)
        (join_lines-split shared broken
          ∙ ap (λ t. join_lines shared ++ t) (section_lines-broken s.of_user b q)
          ∙ sym (join_lines-split shared whole))
    ∙ sym (join_lines-split own (shared ++ whole))

module _ (chars : Chars) (table : IsTable chars) where
  -- Where no printing character of ASCII is white space and the middle dot is no digit: of an entry of
  -- the user section whose text goes on with a title line of the self section and a line that is an
  -- entry, only its first line is read back as its text, and the last line as an entry of the self
  -- section.
  pub parse-serialize_lines :
      (s : Sections) (b q : Bullet)
      → IsProfile chars table s
      → IsBullet chars table b
      → IsBullet chars table q
      → parse chars (serialize (record s { of_user = s.of_user ++ with_lines b q ∷ [] }))
        ≡ (record s { of_self = s.of_self ++ q ∷ []; of_user = s.of_user ++ b ∷ [] })
  unfolding parse
  parse-serialize_lines s b q h hb hq =
      let users = All-snoc (IsBullet chars table) s.of_user b h.noticed hb in
      let own = section_lines self s.of_self in
      let shared = section_lines relationship s.of_relationship in
      let noticed = section_lines user (s.of_user ++ b ∷ []) in
      let last = section_lines self (q ∷ []) in
      let middle : Sections = record {
        of_self = s.of_self;
        of_relationship = s.of_relationship;
        of_user = [];
      } in
      let late : Sections = record middle { of_user = s.of_user ++ b ∷ [] } in
      ap (parse chars) (serialize-broken s b q)
      ∙ ap (λ lines. parse_lines chars lines none empty_sections)
          (split_lines-join (own ++ (shared ++ (noticed ++ last))) (
            All-append chars table own (shared ++ (noticed ++ last))
              (section_lines-OneLine chars table self s.of_self h.own)
              (All-append chars table shared (noticed ++ last)
                (section_lines-OneLine chars table relationship s.of_relationship h.shared)
                (All-append chars table noticed last
                  (section_lines-OneLine chars table user (s.of_user ++ b ∷ []) users)
                  (section_lines-OneLine chars table self (q ∷ []) (hq, tt))))))
      ∙ parse_lines-section chars table self s.of_self (shared ++ (noticed ++ last)) none
          empty_sections h.own
      ∙ parse_lines-section chars table relationship s.of_relationship (noticed ++ last) (some self)
          (record empty_sections { of_self = s.of_self }) h.shared
      ∙ parse_lines-section chars table user (s.of_user ++ b ∷ []) last (some relationship) middle
          users
      ∙ ap (λ lines. parse_lines chars lines (some user) late) (sym (append-nil last))
      ∙ parse_lines-section chars table self (q ∷ []) [] (some user) late (hq, tt)
      ∙ parse_lines-nil chars table (some self) (record late { of_self = s.of_self ++ q ∷ [] })
