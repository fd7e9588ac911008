-- ===== src/Queue/Buckets.antt =====
-- The buckets of a batch.
use mathlib.Core.List.{append_assoc, append-nil}
use doll_os.Prelude.{
  ℕ, ◌+◌, ◌≡◌, refl, sym, ap, ◌∙◌, String, List, [], ◌∷◌, ◌++◌, ◌==◌, eq_iff, arith, if◌then◌else◌,
  length, length-append, keep, Bool-cases, inl, inr,
}
use doll_os.Prelude.Dict.{Dict, get, put, bucket, bucket-put}
use doll_os.Perception.{Perception}
use doll_os.Queue.{key_of, add_to, group_from}

-- A bucket after one more perception.
bucket-add_to :
    (p : Perception) (d : Dict (List Perception)) (k : String)
    → bucket (add_to p d) k ≡ (if k == key_of p then bucket d k ++ p ∷ [] else bucket d k)
unfolding add_to
bucket-add_to p d k =
    bucket-put d (key_of p) k (bucket d (key_of p) ++ p ∷ []) ∙ (elim (Bool-cases (k == key_of p)) [
      | inl y ↦ rw y (ap (λ x. bucket d x ++ p ∷ []) (sym ((eq_iff k (key_of p)).0 y)))
      | inr n ↦ rw n refl
    ])

bucket-group_from :
    (d : Dict (List Perception)) (ps : List Perception) (k : String)
    → bucket (group_from d ps) k ≡ bucket d k ++ keep (λ p. k == key_of p) ps
unfolding group_from
bucket-group_from d [] k = sym (append-nil (bucket d k))
bucket-group_from d (p ∷ ps) k =
    bucket-group_from (add_to p d) ps k
    ∙ ap (λ b. b ++ keep (λ q. k == key_of q) ps) (bucket-add_to p d k)
    ∙ (elim (Bool-cases (k == key_of p)) [
      | inl y ↦ rw y (append_assoc (bucket d k) (p ∷ []) (keep (λ q. k == key_of q) ps))
      | inr n ↦ rw n refl
    ])

-- The bucket of a channel is the batch's perceptions of that channel, in their order.
pub bucket-group :
    (ps : List Perception) (k : String) → bucket (group_from [] ps) k ≡ keep (λ p. k == key_of p) ps
unfolding get
bucket-group ps k = bucket-group_from [] ps k

-- How many perceptions the buckets hold.
unfoldable pub held : Dict (List Perception) → ℕ
held [] = 0
held ((k, ps) ∷ d) = length ps + held d

held-put :
    (d : Dict (List Perception)) (k : String) (ps : List Perception)
    → held (put d k ps) + length (bucket d k) ≡ held d + length ps
unfolding held put get
held-put [] k ps = omega arith
held-put ((j, qs) ∷ d) k ps = ground (arith, held-put d k ps)

held-add_to : (p : Perception) (d : Dict (List Perception)) → held (add_to p d) ≡ held d + 1
unfolding add_to
held-add_to p d = omega (
  arith,
  held-put d (key_of p) (bucket d (key_of p) ++ p ∷ []),
  length-append (bucket d (key_of p)) (p ∷ []),
)

held-group_from :
    (d : Dict (List Perception)) (ps : List Perception)
    → held (group_from d ps) ≡ held d + length ps
unfolding group_from
held-group_from d [] = omega arith
held-group_from d (p ∷ ps) = omega (arith, held-group_from (add_to p d) ps, held-add_to p d)

-- Every perception of the batch is in one bucket: for each channel the bucket has the batch's
-- perceptions of that channel in their order, and together the buckets hold as many as the batch.
pub group-whole :
    (ps : List Perception)
    → ((k : String) → bucket (group_from [] ps) k ≡ keep (λ p. k == key_of p) ps)
      × (held (group_from [] ps) ≡ length ps)
unfolding held
group-whole ps = (bucket-group ps, omega (arith, held-group_from [] ps))
