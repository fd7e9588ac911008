-- ===== src/Profile/Found.antt =====
-- What holds of every entry holds of the entry that is found, and of the entries behind an edit.
use doll_os.Prelude.{
  ℕ, zero, suc, inl, inr, Bool, Option, none, some, List, [], ◌∷◌, ◌++◌, keep, All, Bool-cases,
}
use doll_os.Evolution.Texts.{same}
use doll_os.Profile.{Text, Chars, Section, self, relationship, user, Bullet, Sections}
use doll_os.Profile.Edits.{
  Placed, place_from, all_bullets, first_of, the_only, or_else, find, find_by_id_in,
  find_by_text_in, id_token, clean_target_text,
}
use doll_os.Profile.Apply.{set_at, pop_at}

module _ (P : Bullet → Type 0) where
  pub All-snoc : (bs : List Bullet) (b : Bullet) → All P bs → P b → All P (bs ++ b ∷ [])
  All-snoc [] b h p = (p, tt)
  All-snoc (c ∷ bs) b h p = (h.0, All-snoc bs b h.1 p)

  pub All-set_at : (i : ℕ) (b : Bullet) (bs : List Bullet) → All P bs → P b → All P (set_at i b bs)
  unfolding set_at
  All-set_at zero b [] h p = tt
  All-set_at (suc i) b [] h p = tt
  All-set_at zero b (c ∷ bs) h p = (p, h.1)
  All-set_at (suc i) b (c ∷ bs) h p = (h.0, All-set_at i b bs h.1 p)

  pub All-pop_at : (i : ℕ) (bs : List Bullet) → All P bs → All P (pop_at i bs)
  unfolding pop_at
  All-pop_at zero [] h = tt
  All-pop_at (suc i) [] h = tt
  All-pop_at zero (c ∷ bs) h = h.1
  All-pop_at (suc i) (c ∷ bs) h = (h.0, All-pop_at i bs h.1)

  abbrev pub Each : List Placed → Type 0
  Each xs = All (λ (x : Placed). P x.bullet) xs

  Each-append : (xs ys : List Placed) → Each xs → Each ys → Each (xs ++ ys)
  Each-append [] ys h k = k
  Each-append (x ∷ xs) ys h k = (h.0, Each-append xs ys h.1 k)

  Each-place_from : (k : Section) (i : ℕ) (bs : List Bullet) → All P bs → Each (place_from k i bs)
  Each-place_from k i [] h = tt
  Each-place_from k i (b ∷ bs) h = (h.0, Each-place_from k (suc i) bs h.1)

  Each-keep : (p : Placed → Bool) (xs : List Placed) → Each xs → Each (keep p xs)
  Each-keep p [] h = tt
  Each-keep p (x ∷ xs) h = elim (Bool-cases (p x)) [
    | inl y ↦ rw y (h.0, Each-keep p xs h.1)
    | inr n ↦ rw n (Each-keep p xs h.1)
  ]

  -- What is found has the property.
  abbrev pub Found : Option Placed → Type 0
  Found none = Unit
  Found (some x) = P x.bullet

  Found-first_of : (p : Placed → Bool) (xs : List Placed) → Each xs → Found (first_of p xs)
  Found-first_of p [] h = tt
  Found-first_of p (x ∷ xs) h = elim (Bool-cases (p x)) [
    | inl y ↦ rw y h.0
    | inr n ↦ rw n (Found-first_of p xs h.1)
  ]

  Found-the_only : (xs : List Placed) → Each xs → Found (the_only xs)
  Found-the_only [] h = tt
  Found-the_only (x ∷ []) h = h.0
  Found-the_only (x ∷ y ∷ xs) h = tt

  Found-or_else : (o q : Option Placed) → Found o → Found q → Found (or_else o q)
  Found-or_else none q h k = k
  Found-or_else (some x) q h k = h

  Found-by_id : (xs : List Placed) (o : Option Text) → Each xs → Found (find_by_id_in xs o)
  Found-by_id xs none h = tt
  Found-by_id xs (some token) h = Found-first_of (λ x. same x.bullet.id token) xs h

  Found-by_text : (xs : List Placed) (t : Text) → Each xs → Found (find_by_text_in xs t)
  Found-by_text xs [] h = tt
  Found-by_text xs (c ∷ t) h =
      Found-or_else (first_of (λ x. same x.bullet.text (c ∷ t)) xs) _
        (Found-first_of (λ x. same x.bullet.text (c ∷ t)) xs h)
        (Found-the_only _ (Each-keep _ xs h))

  pub Found-find :
      (chars : Chars) (s : Sections) (target : Text)
      → All P s.of_self
      → All P s.of_relationship
      → All P s.of_user
      → Found (find chars s target)
  unfolding find all_bullets
  Found-find chars s target a b c =
      let entries =
        Each-append (place_from self 0 s.of_self)
          (place_from relationship 0 s.of_relationship ++ place_from user 0 s.of_user)
          (Each-place_from self 0 s.of_self a)
          (Each-append (place_from relationship 0 s.of_relationship) (place_from user 0 s.of_user)
            (Each-place_from relationship 0 s.of_relationship b)
            (Each-place_from user 0 s.of_user c)) in
      Found-or_else (find_by_id_in (all_bullets s) (id_token chars target)) _
        (Found-by_id (all_bullets s) (id_token chars target) entries)
        (Found-by_text (all_bullets s) (clean_target_text chars target) entries)
