-- ===== src/Conversations/Order.antt =====
-- The order of the channels under eviction and use.
use doll_os.Prelude.{
  ℕ, suc, ◌+◌, ◌≤◌, ◌≡◌, refl, ap, ◌∙◌, String, true, false, not, some, List, [], ◌∷◌, ◌++◌, ◌==◌,
  ltb, length, keep, member, member-append, member-keep, arith, eq_iff, Bool-cases, inl, inr,
  length-append, drop, ◌-◌,
}
use doll_os.Prelude.Dict.{Dict, get, put, remove, has, get-put_self}
use doll_os.Conversations.{Conversation, evict, move_to_end}

-- A channel is used: it is the last one now.

abbrev pub Distinct : List String → Type 0
Distinct [] = Unit
Distinct (k ∷ ks) = (member k ks ≡ false) × Distinct ks

pub others : String → List String → List String
others k = keep (λ j. not (k == j))

pub keep-absent :
    (k : String) (ks : List String) → member k ks ≡ false → keep (λ j. not (k == j)) ks ≡ ks
keep-absent k [] e = refl
keep-absent k (j ∷ ks) e = ground (arith, e, keep-absent k ks)

pub length-keep :
    (k : String) (ks : List String)
    → Distinct ks
    → length ks ≤ length (keep (λ j. not (k == j)) ks) + 1
length-keep k [] d = omega arith
length-keep k (j ∷ ks) (n, d) = ground (arith, eq_iff k j, keep-absent k ks, length-keep k ks d)

pub length-evict : {A : Type 0} (m : ℕ) (xs : List A) → length (evict m xs) ≤ length xs
unfolding evict
length-evict m [] = omega arith
length-evict m (x ∷ xs) = ground (arith, length-evict m xs)

pub evict-short : {A : Type 0} (m : ℕ) (xs : List A) → length xs ≤ m → evict m xs ≡ xs
unfolding evict
evict-short m [] h = refl
evict-short m (x ∷ xs) h = ground (arith, h)

pub longer :
    (m : ℕ) (k : String) (ks : List String)
    → Distinct ks
    → ltb m (suc (length ks)) ≡ true
    → ltb m (suc (length (keep (λ j. not (k == j)) ks ++ k ∷ []))) ≡ true
longer m k ks d h =
    rw (length-append (keep (λ j. not (k == j)) ks) (k ∷ []))
      (ground (arith, h, length-keep k ks d))

pub zero_sub : (m : ℕ) → 0 ≡ 0 - m
zero_sub m = omega arith

pub sub_suc : (m n : ℕ) → ltb m (suc n) ≡ true → suc (n - m) ≡ suc n - m
sub_suc m n h = ground (arith, h)

pub none_over : (m n : ℕ) → ltb m (suc n) ≡ false → 0 ≡ suc n - m
none_over m n h = ground (arith, h)

-- What is left are the last ones.
pub evict-drop : {A : Type 0} (m : ℕ) (xs : List A) → evict m xs ≡ drop (length xs - m) xs
unfolding evict
evict-drop m [] = ap (λ n. drop n []) (zero_sub m)
evict-drop m (x ∷ xs) = elim (Bool-cases (ltb m (length (x ∷ xs)))) [
  | inl l ↦ rw (evict, l) (evict-drop m xs ∙ ap (λ n. drop n (x ∷ xs)) (sub_suc m (length xs) l))
  | inr n ↦ rw (evict, n) (ap (λ n. drop n (x ∷ xs)) (none_over m (length xs) n))
]

-- Eviction before the use of a channel makes no difference.
pub evict-use :
    (m : ℕ) (k : String) (ks : List String)
    → Distinct ks
    → evict m (keep (λ j. not (k == j)) (evict m ks) ++ k ∷ [])
      ≡ evict m (keep (λ j. not (k == j)) ks ++ k ∷ [])
unfolding evict
evict-use m k [] d = refl
evict-use m k (j ∷ ks) (n, d) = elim (Bool-cases (ltb m (length (j ∷ ks)))) [
  | inr s ↦ rw s refl
  | inl l ↦ rw l (
      evict-use m k ks d
      ∙ elim (Bool-cases (k == j)) [ inl e ↦ rw e refl | inr e ↦ rw (e, longer m k ks d l) refl ])
]

pub member-evict :
    (m : ℕ) (ks : List String) (k : String) → member k ks ≡ false → member k (evict m ks) ≡ false
unfolding evict
member-evict m [] k h = h
member-evict m (j ∷ ks) k h = ground (arith, h, member-evict m ks k)

pub Distinct-evict : (m : ℕ) (ks : List String) → Distinct ks → Distinct (evict m ks)
unfolding evict
Distinct-evict m [] d = d
Distinct-evict m (j ∷ ks) (n, d) = elim (Bool-cases (ltb m (length (j ∷ ks)))) [
  | inl l ↦ rw l (Distinct-evict m ks d)
  | inr l ↦ rw l (n, d)
]

-- The channels of a dictionary, in its order.
abbrev pub keys : Dict Conversation → List String
keys [] = []
keys ((k, c) ∷ d) = k ∷ keys d

pub keys-append : (d e : Dict Conversation) → keys (d ++ e) ≡ keys d ++ keys e
keys-append [] e = refl
keys-append ((k, c) ∷ d) e = ap (◌∷◌ k) (keys-append d e)

pub keys-remove :
    (d : Dict Conversation) (k : String) → keys (remove d k) ≡ keep (λ j. not (k == j)) (keys d)
unfolding remove
keys-remove [] k = refl
keys-remove ((j, c) ∷ d) k = ground (arith, keys-remove d k)

pub length-keys : (d : Dict Conversation) → length (keys d) ≡ length d
length-keys [] = refl
length-keys ((k, c) ∷ d) = omega (arith, length-keys d)

pub keys-evict : (m : ℕ) (d : Dict Conversation) → keys (evict m d) ≡ evict m (keys d)
unfolding evict
keys-evict m [] = refl
keys-evict m ((k, c) ∷ d) = rw (length-keys d) (ground (arith, keys-evict m d))

pub keys-put :
    (d : Dict Conversation) (k : String) (c : Conversation)
    → has d k ≡ true
    → keys (put d k c) ≡ keys d
unfolding put get
keys-put [] k c h = absurd (ground (arith, h))
keys-put ((j, w) ∷ d) k c h = ground (arith, eq_iff k j, h, keys-put d k c)

pub remove-put :
    (d : Dict Conversation) (k : String) (c : Conversation) → remove (put d k c) k ≡ remove d k
unfolding put remove
remove-put [] k c = ground (arith, eq_iff k k)
remove-put ((j, w) ∷ d) k c = ground (arith, eq_iff k j, eq_iff k k, remove-put d k c)

pub Distinct-keep :
    (k : String) (ks : List String) → Distinct ks → Distinct (keep (λ j. not (k == j)) ks ++ k ∷ [])
Distinct-keep k [] d = (refl, tt)
Distinct-keep k (j ∷ ks) (n, d) = elim (Bool-cases (k == j)) [
  | inl e ↦ rw e (Distinct-keep k ks d)
  | inr e ↦ rw e (
    rw
        (
          member-append j (keep (λ j. not (k == j)) ks) (k ∷ []),
          member-keep j (λ j. not (k == j)) ks,
        )
        (ground (arith, n, e, eq_iff k j, eq_iff j k)),
    Distinct-keep k ks d,
  )
]

pub length-evict_le : {A : Type 0} (m : ℕ) (xs : List A) → length (evict m xs) ≤ m
unfolding evict
length-evict_le m [] = omega arith
length-evict_le m (x ∷ xs) = ground (arith, length-evict_le m xs)

pub member-keys :
    (d : Dict Conversation) (k : String) (c : Conversation)
    → get d k ≡ some c
    → member k (keys d) ≡ true
unfolding get
member-keys [] k c h = absurd (ground (arith, h))
member-keys ((j, w) ∷ d) k c h = ground (arith, h, member-keys d k c)

pub length-keep_le :
    (k : String) (ks : List String) → length (keep (λ j. not (k == j)) ks) ≤ length ks
length-keep_le k [] = omega arith
length-keep_le k (j ∷ ks) = ground (arith, length-keep_le k ks)

pub length-keep-member :
    (k : String) (ks : List String)
    → member k ks ≡ true
    → length (keep (λ j. not (k == j)) ks) + 1 ≤ length ks
length-keep-member k [] h = absurd (ground (arith, h))
length-keep-member k (j ∷ ks) h = ground (arith, h, length-keep-member k ks, length-keep_le k ks)

-- The order of a channel that is there.
pub keys-move_to_end :
    (k : String) (d : Dict Conversation) (c : Conversation)
    → get d k ≡ some c
    → keys (move_to_end k d) ≡ keep (λ j. not (k == j)) (keys d) ++ k ∷ []
unfolding move_to_end
keys-move_to_end k d c e =
    rw (move_to_end, e) (rw (keys-append (remove d k) ((k, c) ∷ []), keys-remove d k) refl)

pub moved-short :
    {m : ℕ} (k : String) (d : Dict Conversation) (c : Conversation)
    → get d k ≡ some c
    → length (keys d) ≤ m
    → length (keep (λ j. not (k == j)) (keys d) ++ k ∷ []) ≤ m
moved-short k d c g h =
    rw (length-append (keep (λ j. not (k == j)) (keys d)) (k ∷ []))
      (omega (arith, h, length-keep-member k (keys d) (member-keys d k c g)))

pub keys-moved_put :
    (k : String) (d : Dict Conversation) (c : Conversation)
    → keys (move_to_end k (put d k c)) ≡ keep (λ j. not (k == j)) (keys d) ++ k ∷ []
unfolding move_to_end
keys-moved_put k d c =
    rw (move_to_end, get-put_self d k c, remove-put d k c)
      (rw (keys-append (remove d k) ((k, c) ∷ []), keys-remove d k) refl)
