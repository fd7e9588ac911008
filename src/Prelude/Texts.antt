-- ===== src/Prelude/Texts.antt =====
-- Texts as code points: literals, Python's `str.strip` and `str.startswith`.
use Prim.Native.Nat.{ℕ}
use Prim.Native.Char.{code}
use Prim.Native.String.{String}
use mathlib.Core.Option.{Option, none, some}
use mathlib.Core.Bool.{Bool, true, false, ◌&&◌}
use mathlib.Core.List.{List, [], ◌∷◌}
use doll_os.Prelude.Booleans.{eqb, if◌then◌else◌}

-- `s.startswith(token)`
unfoldable pub starts_with : List ℕ → List ℕ → Bool
starts_with [] s = true
starts_with (c ∷ token) [] = false
starts_with (c ∷ token) (d ∷ s) = eqb c d && starts_with token s

-- `not s`
abbrev pub no_text : List ℕ → Bool
no_text [] = true
no_text (c ∷ s) = false

-- `blank` is the white space that `str.strip` removes.
unfoldable pub strip_left : (ℕ → Bool) → List ℕ → List ℕ
strip_left blank [] = []
strip_left blank (c ∷ s) = if blank c then strip_left blank s else c ∷ s

unfoldable pub strip_right : (ℕ → Bool) → List ℕ → List ℕ
strip_right blank [] = []
strip_right blank (c ∷ s) = elim (strip_right blank s) [
  | [] ↦ if blank c then [] else c ∷ []
  | d ∷ t ↦ c ∷ d ∷ t
]

unfoldable pub strip : (ℕ → Bool) → List ℕ → List ℕ
unfolding strip_left strip_right
strip blank s = strip_right blank (strip_left blank s)

-- The code points of a text literal.
abbrev pub codes : String → List ℕ
codes String.[] = []
codes (String.◌∷◌ c s) = code c ∷ codes s

-- What stands behind a prefix, if a text has it.
unfoldable pub behind : List ℕ → List ℕ → Option (List ℕ)
behind [] s = some s
behind (c ∷ token) [] = none
behind (c ∷ token) (d ∷ s) = if eqb c d then behind token s else none
