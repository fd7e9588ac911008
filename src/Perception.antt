-- ===== src/Perception.antt =====
-- `Perception` of src/dollos/mind/mind_state.py: what an event source puts in front of Doll.
-- `data` is a Python dict of arbitrary values; only its texts and the truth of its other values are
-- ever read, so a value is `None`, a Boolean, a text, or any other object with its truth value.
use doll_os.Prelude.{ℕ, String, Bool, false, not, Option, none, some, ◌==◌}
use doll_os.Prelude.Dict.{Dict, get}

pub data Value : Type 0 where
  null : Value
  bool : Bool → Value
  str : String → Value
  object : Bool → Value

pub record Perception : Type 0 where
  pub kind : String
  pub t : ℕ
  pub data_ : Dict Value
  pub seq : Option ℕ

-- `bool(v)`
unfoldable pub truthy : Value → Bool
truthy null = false
truthy (bool b) = b
truthy (str s) = not (s == "")
truthy (object b) = b

-- `bool(data.get(key))`
unfoldable pub flag : Dict Value → String → Bool
unfolding truthy get
flag d key = elim (get d key) [ none ↦ false | some v ↦ truthy v ]
