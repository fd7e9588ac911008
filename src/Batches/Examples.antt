-- ===== src/Batches/Examples.antt =====
-- Items that are named by their channel and a number; a window is a number of seconds.
use doll_os.Prelude.{ℕ, ◌≡◌, refl, String, none, some, List, [], ◌∷◌, ◌++◌, ◌==◌, keep, arith}
use doll_os.Prelude.Dict.{bucket, has, get}
use doll_os.Batches.{Accumulator}
use doll_os.Batches.Steps.{through, Sound}
use doll_os.Batches.Delivery.{Event, added, timed_out, run, items_of, run-through}

abbrev Item : Type 0
Item = String × ℕ

abbrev empty : Accumulator Item ℕ
empty = record { pending = []; timers = []; sent = []; window_s = 2 }

abbrev events : List (Event Item ℕ)
events =
    added "a" ("a", 1) none
    ∷ added "b" ("b", 2) (some 9)
    ∷ added "a" ("a", 3) none
    ∷ timed_out "a"
    ∷ added "a" ("a", 4) none
    ∷ []

waiting : (run Item ℕ events empty).pending ≡ ("b", ("b", 2) ∷ []) ∷ ("a", ("a", 4) ∷ []) ∷ []
unfolding run doll_os.Prelude.Dict.put get doll_os.Prelude.Dict.remove
waiting = refl

empty-Sound : Sound Item ℕ (λ i. i.0) empty
unfolding get
empty-Sound = record { own = λ k c. ground arith; timed = λ c. refl }

run-through_example :
    ((k : String)
      → through Item ℕ (λ i. i.0) k (run Item ℕ events empty)
        ≡ through Item ℕ (λ i. i.0) k empty ++ items_of Item ℕ k events)
    × ((k : String)
        → has (run Item ℕ events empty).timers k ≡ has (run Item ℕ events empty).pending k)
run-through_example =
    run-through Item ℕ (λ i. i.0) events empty (refl, (refl, (refl, (refl, tt)))) empty-Sound
