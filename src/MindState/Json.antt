-- ===== src/MindState/Json.antt =====
-- JSON values as Python holds them. `Real` are the numbers that are not counts.
use doll_os.Prelude.{
  ℕ, String, Bool, Option, none, some, List, [], ◌∷◌, ◌==◌, if◌then◌else◌, ◌≡◌, refl, ap,
}
use doll_os.Prelude.Dict.{Dict}

mutual
  pub data Json (Real : Type 0) : Type 0 where
    null : Json Real
    truth : Bool → Json Real
    text : String → Json Real
    count : ℕ → Json Real
    number : Real → Json Real
    items : Items Real → Json Real
    members : Members Real → Json Real

  pub data Items (Real : Type 0) : Type 0 where
    no_items : Items Real
    item : Json Real → Items Real → Items Real

  pub data Members (Real : Type 0) : Type 0 where
    no_members : Members Real
    entry : String → Json Real → Members Real → Members Real

module _ {Real : Type 0} where
  unfoldable pub to_items : List (Json Real) → Items Real
  to_items [] = no_items
  to_items (x ∷ xs) = item x (to_items xs)

  unfoldable pub from_items : Items Real → List (Json Real)
  from_items no_items = []
  from_items (item x xs) = x ∷ from_items xs

  unfoldable pub to_members : Dict (Json Real) → Members Real
  to_members [] = no_members
  to_members ((k, x) ∷ d) = entry k x (to_members d)

  unfoldable pub from_members : Members Real → Dict (Json Real)
  from_members no_members = []
  from_members (entry k x d) = (k, x) ∷ from_members d

  pub from-to_items : (xs : List (Json Real)) → from_items (to_items xs) ≡ xs
  unfolding from_items to_items
  from-to_items [] = refl
  from-to_items (x ∷ xs) = ap (◌∷◌ x) (from-to_items xs)

  pub from-to_members : (d : Dict (Json Real)) → from_members (to_members d) ≡ d
  unfolding from_members to_members
  from-to_members [] = refl
  from-to_members ((k, x) ∷ d) = ap (◌∷◌ (k, x)) (from-to_members d)

  abbrev pub array : List (Json Real) → Json Real
  array xs = items (to_items xs)

  abbrev pub object : Dict (Json Real) → Json Real
  object d = members (to_members d)

  -- What a loop over the records of a list sees: a text or an object would give it texts.
  unfoldable pub as_array : Json Real → Option (List (Json Real))
  unfolding from_items
  as_array (items xs) = some (from_items xs)
  as_array (text s) = if s == "" then some [] else none
  as_array (members no_members) = some []
  as_array v = none

  unfoldable pub as_object : Json Real → Option (Dict (Json Real))
  unfolding from_members
  as_object (members d) = some (from_members d)
  as_object v = none

  -- `d.get(k, default)`
  abbrev pub or_default : Option (Json Real) → Json Real → Json Real
  or_default none v = v
  or_default (some w) v = w
