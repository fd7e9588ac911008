-- ===== src/Prelude/Names.antt =====
-- Sets of names (Python's `frozenset[str]`), as lists that are only asked for membership.
use Prim.Native.String.{String}
use mathlib.Core.Path.{◌≡◌, refl}
use mathlib.Core.Bool.{Bool, false, ◌&&◌, ◌||◌}
use mathlib.Core.List.{List, [], ◌∷◌, ◌++◌}
use native.Mathlib.Omega.{arith}
use text.Mathlib.Text.{◌==◌}
use text.Mathlib.TextEquality.{eq_iff}
use doll_os.Prelude.Lists.{keep}

-- `n in names`
abbrev pub member : String → List String → Bool
member n [] = false
member n (m ∷ ms) = n == m || member n ms

pub member-append :
    (n : String) (xs ys : List String) → member n (xs ++ ys) ≡ member n xs || member n ys
member-append n [] ys = refl
member-append n (x ∷ xs) ys = ground (arith, member-append n xs ys)

pub member-keep :
    (n : String) (p : String → Bool) (xs : List String) → member n (keep p xs) ≡ member n xs && p n
member-keep n p [] = refl
member-keep n p (x ∷ xs) = ground (arith, eq_iff n x, member-keep n p xs)
