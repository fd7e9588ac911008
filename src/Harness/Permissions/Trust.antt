-- ===== src/Harness/Permissions/Trust.antt =====
-- The trust of a batch of perceptions, and what the permission table gives each principal.
use doll_os.Prelude.{
  ◌≤◌, ◌≡◌, ◌⊎◌, inl, inr, refl, sym, ap, subst, false, ◌&&◌, none, some, List, [], ◌∷◌, arith,
  Among, eq_iff, Option-cases,
}
use doll_os.Perception.{Perception, flag}
use doll_os.Harness.Permissions.{
  Principal, internal, external_public, rank, author_principal, authored, max_rank, principal_of,
}

pub rank-injective : (a b : Principal) → rank a ≡ rank b → a ≡ b
rank-injective a b h = ground arith

-- The running maximum is at least its start and every later element, and is one of them.
max_rank-ge :
    (a : Principal) (l : List Principal) (b : Principal)
    → Among b (a ∷ l)
    → rank b ≤ rank (max_rank a l)
unfolding max_rank
max_rank-ge a [] b (inl e) = ground arith
max_rank-ge a [] b (inr m) = absurd m
max_rank-ge a (c ∷ l) b (inl e) =
    ground (arith, max_rank-ge a l b (inl e), max_rank-ge c l c (inl refl))
max_rank-ge a (c ∷ l) b (inr (inl e)) =
    ground (arith, max_rank-ge c l b (inl e), max_rank-ge a l a (inl refl))
max_rank-ge a (c ∷ l) b (inr (inr m)) =
    ground (arith, max_rank-ge c l b (inr m), max_rank-ge a l b (inr m))

max_rank-Among : (a : Principal) (l : List Principal) → Among (max_rank a l) (a ∷ l)
unfolding max_rank
max_rank-Among a [] = inl refl
max_rank-Among a (c ∷ l) = ground (arith, max_rank-Among a l, max_rank-Among c l)

-- The authored principals are those of the batch's perceptions.
authored-Among :
    (ps : List Perception) (p : Perception) (a : Principal)
    → Among p ps
    → author_principal p ≡ some a
    → Among a (authored ps)
unfolding authored
authored-Among [] p a m h = absurd m
authored-Among (q ∷ ps) p a (inl e) h = ground (arith, ap author_principal e)
authored-Among (q ∷ ps) p a (inr m) h = ground (arith, authored-Among ps p a m h)

Among-authored :
    (ps : List Perception) (a : Principal)
    → Among a (authored ps)
    → (p : Perception) × Among p ps × (author_principal p ≡ some a)
unfolding authored
Among-authored [] a m = absurd m
Among-authored (q ∷ ps) a m = elim (Option-cases (author_principal q)) [
  | inl e ↦ let (p, i, h) = Among-authored ps a (rw e at m) in (p, inr i, h)
  | inr (b, e) ↦
      let n : (a ≡ b) ⊎ Among a (authored ps) = rw e at m in
      elim n [
        | inl i ↦ (q, inl refl, rw i e)
        | inr i ↦ let (p, j, h) = Among-authored ps a i in (p, inr j, h)
      ]
]

-- The greatest rank of a list, and where it comes from.
Greatest : Principal → List Principal → Type 0
Greatest x l =
    ((a : Principal) → Among a l → rank a ≤ rank x) × (Among x l ⊎ ((l ≡ []) × (x ≡ internal)))

authored-principal_of :
    (l : List Principal) (ps : List Perception) → authored ps ≡ l → Greatest (principal_of ps) l
unfolding principal_of Greatest
authored-principal_of [] ps e = (λ a m. absurd m, inr (refl, rw (e, principal_of)))
authored-principal_of (b ∷ l) ps e =
    let x : principal_of ps ≡ max_rank b l = rw (e, principal_of) in
    subst (λ y. Greatest y (b ∷ l)) (sym x) (max_rank-ge b l, inl (max_rank-Among b l))

none-authored :
    (ps : List Perception) (p : Perception)
    → authored ps ≡ []
    → Among p ps
    → author_principal p ≡ none
none-authored ps p e m = elim (Option-cases (author_principal p)) [
  | inl h ↦ h
  | inr (a, h) ↦ let n : Among a [] = rw e at (authored-Among ps p a m h) in absurd n
]

-- A turn's principal is the lowest-trust author in its batch: no authored perception ranks below
-- it, and it is the principal of one of them, or `internal` where no perception is authored.
pub principal_of-lowest :
    (ps : List Perception)
    → ((p : Perception) (a : Principal)
        → Among p ps
        → author_principal p ≡ some a
        → rank a ≤ rank (principal_of ps))
      × (((p : Perception) × Among p ps × (author_principal p ≡ some (principal_of ps)))
          ⊎ (((p : Perception) → Among p ps → author_principal p ≡ none)
              × (principal_of ps ≡ internal)))
unfolding Greatest
principal_of-lowest ps =
    let (upper, attained) = authored-principal_of (authored ps) ps refl in
    (
      λ p a m h. upper a (authored-Among ps p a m h),
      elim attained [
        | inl m ↦ inl (Among-authored ps (principal_of ps) m)
        | inr (e, i) ↦ inr (λ p m. none-authored ps p e m, i)
      ],
    )

stranger_author :
    (p : Perception)
    → p.kind ≡ "ChannelMessage"
    → flag p.data_ "author_is_owner" && flag p.data_ "is_dm" ≡ false
    → author_principal p ≡ some external_public
unfolding author_principal
stranger_author p k f = ground (arith, eq_iff p.kind "ChannelMessage")

lowest_rank : (a : Principal) → rank external_public ≤ rank a → a ≡ external_public
lowest_rank a h = ground arith

-- A batch with a channel message that is not the owner's own direct message acts for a stranger,
-- whatever else is in it.
pub principal_of-stranger :
    (ps : List Perception) (p : Perception)
    → Among p ps
    → p.kind ≡ "ChannelMessage"
    → flag p.data_ "author_is_owner" && flag p.data_ "is_dm" ≡ false
    → principal_of ps ≡ external_public
principal_of-stranger ps p m k f =
    lowest_rank (principal_of ps)
      ((principal_of-lowest ps).0 p external_public m (stranger_author p k f))
