-- ===== src/Prelude/Options.antt =====
-- Chains of partial results.
use mathlib.Core.Path.{◌≡◌, ap}
use mathlib.Core.Option
use mathlib.Core.Option.{Option, none, some}

infixl 10 ◌>>=◌
-- What a `do` block stands for.
abbrev pub ◌>>=◌ {ℓ κ} : {A : Type ℓ} {B : Type κ} → Option A → (A → Option B) → Option B
none >>= f = none
some a >>= f = f a

pub some_inj {ℓ} : {A : Type ℓ} {a b : A} → some a ≡ some b → a ≡ b
some_inj {a = a} e = ap (λ o. Option.get_or o a) e
