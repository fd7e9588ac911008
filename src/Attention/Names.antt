-- ===== src/Attention/Names.antt =====
-- `_name_match` of src/dollos/mind/attention.py, over code points.
-- `re.search(rf"\b{re.escape(token)}\b", content, re.IGNORECASE)` is written out as the search that
-- it is; the regex engine's Unicode tables are the parameter `Unicode`.
use doll_os.Prelude.Texts.{starts_with}
use doll_os.Prelude.{
  ℕ, Bool, false, ◌&&◌, ◌||◌, Option, none, some, List, [], ◌∷◌, ltb, eqb, xor, if◌then◌else◌, any,
}

pub record Unicode : Type 0 where
  pub is_word : ℕ → Bool
  pub fold : ℕ → ℕ

-- `token in content`
unfoldable pub contains : List ℕ → List ℕ → Bool
unfolding starts_with
contains token [] = starts_with token []
contains token (d ∷ s) = starts_with token (d ∷ s) || contains token s

module _ (u : Unicode) where
  open u use {is_word, fold}

  -- Whether the code point before a position belongs to a word; none stands before the start.
  abbrev pub word_at : Option ℕ → Bool
  word_at none = false
  word_at (some c) = is_word c

  abbrev pub head? : List ℕ → Option ℕ
  head? [] = none
  head? (c ∷ s) = some c

  -- `\b`
  abbrev pub boundary : Option ℕ → Option ℕ → Bool
  boundary before after = xor (word_at before) (word_at after)

  -- The rest of the word from here, up to case, and a boundary behind it.
  unfoldable pub ends_word : Option ℕ → List ℕ → List ℕ → Bool
  ends_word before [] s = boundary before (head? s)
  ends_word before (c ∷ token) [] = false
  ends_word before (c ∷ token) (d ∷ s) = eqb (fold c) (fold d) && ends_word (some d) token s

  unfoldable pub find_word : Option ℕ → List ℕ → List ℕ → Bool
  unfolding ends_word
  find_word before token [] = boundary before none && ends_word before token []
  find_word before token (d ∷ s) =
      boundary before (some d) && ends_word before token (d ∷ s) || find_word (some d) token s

  unfoldable pub token_match : List ℕ → List ℕ → Bool
  unfolding find_word contains
  token_match content [] = false
  token_match content (c ∷ token) =
      if any (λ ch. ltb ch 128) (c ∷ token)
      then find_word none (c ∷ token) content
      else contains (c ∷ token) content

  unfoldable pub name_match : List ℕ → List (List ℕ) → Bool
  unfolding token_match
  name_match [] tokens = false
  name_match (c ∷ content) tokens = any (token_match (c ∷ content)) tokens
