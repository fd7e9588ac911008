-- ===== src/Profile/RoundTrip.antt =====
-- The profile that is read back from what was written.
use mathlib.Core.List.{append_assoc, append-nil}
use doll_os.Prelude.Texts.{codes, starts_with, strip}
use doll_os.Prelude.{
  ◌≡◌, refl, sym, ap, ◌∙◌, Option, none, some, List, [], ◌∷◌, ◌++◌, map, drop, if◌then◌else◌, All,
}
use doll_os.Wal.Lines.{OneLine, split_lines-join}
use doll_os.Profile.{
  Text, Chars, Section, self, relationship, user, Bullet, Sections, empty_sections, bullets_of,
  set_bullets, section_of_title, add_bullet, parse_lines, parse, read_bullet, format_bullet,
  section_lines, serialize,
}
use doll_os.Profile.Bullets.{
  IsTable, IsBullet, title_line, strip-title, strip-format, read_bullet-format,
  section_of_title-title, format-OneLine,
}

set_bullets_self : (k : Section) (s : Sections) → set_bullets k (bullets_of k s) s ≡ s
set_bullets_self self s = refl
set_bullets_self relationship s = refl
set_bullets_self user s = refl

set_bullets-set :
    (k : Section) (bs cs : List Bullet) (s : Sections)
    → set_bullets k cs (set_bullets k bs s) ≡ set_bullets k cs s
set_bullets-set self bs cs s = refl
set_bullets-set relationship bs cs s = refl
set_bullets-set user bs cs s = refl

bullets_of-set :
    (k : Section) (bs : List Bullet) (s : Sections) → bullets_of k (set_bullets k bs s) ≡ bs
bullets_of-set self bs s = refl
bullets_of-set relationship bs s = refl
bullets_of-set user bs s = refl

title_line-OneLine : (k : Section) → OneLine (title_line k)
title_line-OneLine self = refl
title_line-OneLine relationship = refl
title_line-OneLine user = refl

module _ (chars : Chars) (table : IsTable chars) where
  open chars use {blank}

  -- What a line does, once it is stripped.
  abbrev after_line : List Text → Text → Option Section → Sections → Sections
  after_line lines stripped current s =
      let title = starts_with (codes "## ") stripped in
      parse_lines chars lines
        (if title then section_of_title (strip blank (drop 3 stripped)) else current)
        (if title then s else add_bullet current (read_bullet chars stripped) s)

  pub parse_lines-nil :
      (current : Option Section) (s : Sections) → parse_lines chars [] current s ≡ s
  unfolding parse_lines
  parse_lines-nil current s = refl

  parse_lines-step :
      (line : Text) (lines : List Text) (current : Option Section) (s : Sections)
      → parse_lines chars (line ∷ lines) current s ≡ after_line lines (strip blank line) current s
  unfolding parse_lines
  parse_lines-step line lines current s = refl

  parse_lines-title :
      (k : Section) (lines : List Text) (current : Option Section) (s : Sections)
      → parse_lines chars (title_line k ∷ lines) current s ≡ parse_lines chars lines (some k) s
  unfolding starts_with
  parse_lines-title k lines current s =
      parse_lines-step (title_line k) lines current s
      ∙ ap (λ t. after_line lines t current s) (strip-title chars table k).0
      ∙ ap (λ t. parse_lines chars lines (section_of_title t) s) (strip-title chars table k).1
      ∙ ap (λ o. parse_lines chars lines o s) (section_of_title-title k)

  parse_lines-bullet :
      (b : Bullet) (lines : List Text) (k : Section) (s : Sections)
      → IsBullet chars table b
      → parse_lines chars (format_bullet b ∷ lines) (some k) s
        ≡ parse_lines chars lines (some k) (set_bullets k (bullets_of k s ++ b ∷ []) s)
  unfolding starts_with
  parse_lines-bullet b lines k s h =
      parse_lines-step (format_bullet b) lines (some k) s
      ∙ ap (λ t. after_line lines t (some k) s) (strip-format chars table b h)
      ∙ ap (λ o. parse_lines chars lines (some k) (add_bullet (some k) o s))
          (read_bullet-format chars table b h)

  parse_lines-bullets :
      (bs : List Bullet) (lines : List Text) (k : Section) (s : Sections)
      → All (IsBullet chars table) bs
      → parse_lines chars (map format_bullet bs ++ lines) (some k) s
        ≡ parse_lines chars lines (some k) (set_bullets k (bullets_of k s ++ bs) s)
  parse_lines-bullets [] lines k s h =
      ap (λ q. parse_lines chars lines (some k) q)
        (sym (ap (λ bs. set_bullets k bs s) (append-nil (bullets_of k s)) ∙ set_bullets_self k s))
  parse_lines-bullets (b ∷ bs) lines k s h =
      let q = set_bullets k (bullets_of k s ++ b ∷ []) s in
      parse_lines-bullet b (map format_bullet bs ++ lines) k s h.0
      ∙ parse_lines-bullets bs lines k q h.1
      ∙ ap (λ r. parse_lines chars lines (some k) r)
          (set_bullets-set k (bullets_of k s ++ b ∷ []) (bullets_of k q ++ bs) s
            ∙ ap (λ cs. set_bullets k cs s)
                (ap (λ cs. cs ++ bs) (bullets_of-set k (bullets_of k s ++ b ∷ []) s)
                  ∙ append_assoc (bullets_of k s) (b ∷ []) bs))

  pub parse_lines-section :
      (k : Section) (bs : List Bullet) (lines : List Text) (current : Option Section) (s : Sections)
      → All (IsBullet chars table) bs
      → parse_lines chars (section_lines k bs ++ lines) current s
        ≡ parse_lines chars lines (some k) (set_bullets k (bullets_of k s ++ bs) s)
  unfolding section_lines
  parse_lines-section k bs lines current s h =
      parse_lines-title k (map format_bullet bs ++ lines) current s
      ∙ parse_lines-bullets bs lines k s h

  -- Every bullet is one that the module writes.
  pub record IsProfile (s : Sections) : Type 0 where
    pub own : All (IsBullet chars table) s.of_self
    pub shared : All (IsBullet chars table) s.of_relationship
    pub noticed : All (IsBullet chars table) s.of_user

  pub section_lines-OneLine :
      (k : Section) (bs : List Bullet)
      → All (IsBullet chars table) bs
      → All OneLine (section_lines k bs)
  unfolding section_lines
  section_lines-OneLine k bs h = (title_line-OneLine k, bullet_lines bs h)
    where
      bullet_lines :
          (bs : List Bullet) → All (IsBullet chars table) bs → All OneLine (map format_bullet bs)
      bullet_lines [] h = tt
      bullet_lines (b ∷ bs) h = (format-OneLine chars table b h.0, bullet_lines bs h.1)

  pub All-append : (xs ys : List Text) → All OneLine xs → All OneLine ys → All OneLine (xs ++ ys)
  All-append [] ys h k = k
  All-append (x ∷ xs) ys h k = (h.0, All-append xs ys h.1 k)

  -- Where no printing character of ASCII is white space and the middle dot is no digit: a profile whose
  -- ids and dates have their shapes, and whose texts are one line that does not end in white space, is
  -- read back as it was written.
  pub parse-serialize : (s : Sections) → IsProfile s → parse chars (serialize s) ≡ s
  unfolding parse serialize
  parse-serialize s h =
      let users = section_lines user s.of_user in
      let shared = section_lines relationship s.of_relationship in
      ap (λ lines. parse_lines chars lines none empty_sections)
        (split_lines-join (section_lines self s.of_self ++ (shared ++ users)) (
          All-append (section_lines self s.of_self) (shared ++ users)
            (section_lines-OneLine self s.of_self h.own)
            (All-append shared users (section_lines-OneLine relationship s.of_relationship h.shared)
              (section_lines-OneLine user s.of_user h.noticed))))
      ∙ parse_lines-section self s.of_self (shared ++ users) none empty_sections h.own
      ∙ parse_lines-section relationship s.of_relationship users (some self)
          (set_bullets self s.of_self empty_sections) h.shared
      ∙ ap (λ lines. parse_lines chars lines (some relationship) (record s { of_user = [] }))
          (sym (append-nil users))
      ∙ parse_lines-section user s.of_user [] (some relationship) (record s { of_user = [] })
          h.noticed
      ∙ parse_lines-nil (some user) s
