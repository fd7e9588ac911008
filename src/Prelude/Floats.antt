-- ===== src/Prelude/Floats.antt =====
-- Python floats, as far as the source computes with them: a type with the operations that are used.
use Prim.Native.Nat.{ℕ, ◌-◌, ◌*◌}
use mathlib.Core.Bool.{Bool}
use doll_os.Prelude.Booleans.{ltb, leb, if◌then◌else◌}

-- `number` is a literal, `less x y` is `x < y`, `at_least x y` is `x >= y`.
pub record Floats : Type 1 where
  pub Real : Type 0
  pub number : ℕ → Real
  pub sub : Real → Real → Real
  pub mul : Real → Real → Real
  pub div : Real → Real → Real
  pub less : Real → Real → Bool
  pub at_least : Real → Real → Bool

module _ (floats : Floats) where
  open floats use {Real, less}

  -- `max(x, y)` and `min(x, y)`: the first, unless the second is beyond it.
  abbrev pub max_of : Real → Real → Real
  max_of x y = if less x y then y else x

  abbrev pub min_of : Real → Real → Real
  min_of x y = if less y x then y else x

-- The whole numbers as floats, for the tests.
abbrev pub whole : Floats
whole = record {
  Real = ℕ;
  number = λ n. n;
  sub = ◌-◌;
  mul = ◌*◌;
  div = λ x y. x;
  less = ltb;
  at_least = λ x y. leb y x;
}
