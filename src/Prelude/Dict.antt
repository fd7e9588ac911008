-- ===== src/Prelude/Dict.antt =====
-- Python's `dict` with text keys: an association list in insertion order.
use Prim.Native.String.{String}
use mathlib.Core.Path.{◌≡◌, refl}
use mathlib.Core.Logic.{◌≢◌}
use mathlib.Core.Bool.{Bool, true, false, not, ◌&&◌, ◌||◌}
use mathlib.Core.Option.{Option, none, some}
use mathlib.Core.List.{List, [], ◌∷◌, ◌++◌}
use native.Mathlib.Omega.{arith}
use text.Mathlib.Text.{◌==◌}
use text.Mathlib.TextEquality.{eq_iff}
use doll_os.Prelude.Booleans.{if◌then◌else◌}

abbrev pub Dict {ℓ} : Type ℓ → Type ℓ
Dict V = List (String × V)

module _ {ℓ} {V : Type ℓ} where
  -- `d.get(k)`
  unfoldable pub get : Dict V → String → Option V
  get [] k = none
  get ((j, v) ∷ d) k = if k == j then some v else get d k

  -- `d[k] = v`: an existing key keeps its place.
  unfoldable pub put : Dict V → String → V → Dict V
  put [] k v = (k, v) ∷ []
  put ((j, w) ∷ d) k v = if k == j then (k, v) ∷ d else (j, w) ∷ put d k v

  -- `d.pop(k, None)`
  unfoldable pub remove : Dict V → String → Dict V
  remove [] k = []
  remove ((j, w) ∷ d) k = if k == j then remove d k else (j, w) ∷ remove d k

  -- `k in d`
  abbrev pub has : Dict V → String → Bool
  has d k = elim (get d k) [ none ↦ false | some v ↦ true ]

  -- `{k: v for k, v in d.items() if p(k)}`
  unfoldable pub restrict : (String → Bool) → Dict V → Dict V
  restrict p [] = []
  restrict p ((j, v) ∷ d) = if p j then (j, v) ∷ restrict p d else restrict p d

  pub get-append :
      (d e : Dict V) (k : String)
      → get (d ++ e) k ≡ elim (get d k) [ none ↦ get e k | some v ↦ some v ]
  unfolding get
  get-append [] e k = refl
  get-append ((j, v) ∷ d) e k = ground (arith, get-append d e k)

  pub get-restrict :
      (p : String → Bool) (d : Dict V) (k : String)
      → get (restrict p d) k ≡ (if p k then get d k else none)
  unfolding get restrict
  get-restrict p [] k = ground arith
  get-restrict p ((j, v) ∷ d) k = ground (arith, eq_iff k j, get-restrict p d k)

  pub get-put :
      (d : Dict V) (k j : String) (v : V) → get (put d k v) j ≡ (if j == k then some v else get d j)
  unfolding get put
  get-put [] k j v = refl
  get-put ((i, w) ∷ d) k j v = ground (arith, eq_iff j k, eq_iff k i, eq_iff j i, get-put d k j v)

  pub get-remove :
      (d : Dict V) (k j : String) → get (remove d k) j ≡ (if j == k then none else get d j)
  unfolding get remove
  get-remove [] k j = ground arith
  get-remove ((i, w) ∷ d) k j = ground (arith, eq_iff j k, eq_iff k i, eq_iff j i, get-remove d k j)

  pub get-put_self : (d : Dict V) (k : String) (v : V) → get (put d k v) k ≡ some v
  get-put_self d k v = rw (get-put d k k v, (eq_iff k k).1 refl) refl

  pub get-put_ne : (d : Dict V) (k j : String) (v : V) → k ≢ j → get (put d k v) j ≡ get d j
  get-put_ne d k j v h = ground (arith, get-put d k j v, eq_iff j k)

  pub get-remove_self : (d : Dict V) (k : String) → get (remove d k) k ≡ none
  get-remove_self d k = rw (get-remove d k k, (eq_iff k k).1 refl) refl

  pub get-remove_ne : (d : Dict V) (k j : String) → k ≢ j → get (remove d k) j ≡ get d j
  get-remove_ne d k j h = ground (arith, get-remove d k j, eq_iff j k)

  pub has-put : (d : Dict V) (k j : String) (v : V) → has (put d k v) j ≡ (j == k || has d j)
  has-put d k j v = ground (arith, get-put d k j v)

  pub has-remove : (d : Dict V) (k j : String) → has (remove d k) j ≡ (not (j == k) && has d j)
  has-remove d k j = ground (arith, get-remove d k j)

-- `d.get(k, [])`
abbrev pub bucket {ℓ} : {A : Type ℓ} → Dict (List A) → String → List A
bucket d k = elim (get d k) [ none ↦ [] | some xs ↦ xs ]

pub bucket-put {ℓ} :
    {A : Type ℓ} (d : Dict (List A)) (j k : String) (xs : List A)
    → bucket (put d j xs) k ≡ (if k == j then xs else bucket d k)
bucket-put d j k xs = ground (arith, get-put d j k xs)

pub bucket-remove {ℓ} :
    {A : Type ℓ} (d : Dict (List A)) (j k : String)
    → bucket (remove d j) k ≡ (if k == j then [] else bucket d k)
bucket-remove d j k = ground (arith, get-remove d j k)
