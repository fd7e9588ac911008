-- ===== src/Evolution/Texts.antt =====
-- The text tests of src/dollos/mind/evolution.py: surfacing markers, echoes, the mechanical checks and
-- the restatement gate, with `check_persona_violations` and `pairwise_jaccard` of
-- src/dollos/mind/persona_guard.py. A text is its code points. `unicodedata` and `jieba` are the
-- parameter `Language`.
use doll_os.Prelude.{
  ℕ, zero, suc, ◌+◌, ◌*◌, ◌-◌, Bool, true, false, not, ◌&&◌, ◌||◌, Option, none, some, List, [],
  ◌∷◌, ◌++◌, eqb, ltb, leb, if◌then◌else◌, length, keep, any, map,
}
use doll_os.Attention.Names.{contains}
use doll_os.Prelude.Texts.{starts_with, strip}

abbrev pub Text : Type 0
Text = List ℕ

-- `s == t`
unfoldable pub same : Text → Text → Bool
same [] [] = true
same [] (d ∷ t) = false
same (c ∷ s) [] = false
same (c ∷ s) (d ∷ t) = eqb c d && same s t

-- `is_space` is `str.isspace` of a character, `punctuation` says that its category starts with P;
-- `words` are the words that `_word_set` gets from its tokenizer.
pub record Language : Type 0 where
  pub is_space : ℕ → Bool
  pub punctuation : ℕ → Bool
  pub nfkc : Text → Text
  pub words : Text → List Text

abbrev pub old_mark : Text
old_mark = 0x27ea ∷ b'c' ∷ b'u' ∷ b'r' ∷ b'r' ∷ b'e' ∷ b'n' ∷ b't' ∷ 0x27eb ∷ []

abbrev pub new_mark : Text
new_mark = 0x27ea ∷ b'p' ∷ b'r' ∷ b'o' ∷ b'p' ∷ b'o' ∷ b's' ∷ b'e' ∷ b'd' ∷ 0x27eb ∷ []

-- `text.replace(mark, "")`; the first argument is how much of a mark is still to be skipped.
unfoldable pub without : ℕ → Text → Text → Text
unfolding starts_with
without k mark [] = []
without (suc k) mark (c ∷ s) = without k mark s
without zero mark (c ∷ s) =
    let skipped = without (length mark - 1) mark s in
    let kept = c ∷ without zero mark s in if starts_with mark (c ∷ s) then skipped else kept

-- A member of a set of texts, and a set without repetitions.
unfoldable pub has_text : Text → List Text → Bool
unfolding same
has_text t [] = false
has_text t (s ∷ ss) = same t s || has_text t ss

unfoldable pub distinct : List Text → List Text
unfolding has_text
distinct [] = []
distinct (s ∷ ss) = if has_text s ss then distinct ss else s ∷ distinct ss

pub record Enforcement : Type 0 where
  pub banned_substrings : List Text
  pub max_exclaim_run : Option ℕ

pub data Violation : Type 0 where
  banned : Text → Violation
  exclaim_run : ℕ → Violation

pub data Reason : Type 0 where
  too_short too_long : ℕ → Reason
  breaks_persona : List Violation → Reason

abbrev pub is_exclaim : ℕ → Bool
is_exclaim c = eqb c 33 || eqb c 0xff01

-- The lengths of the runs of exclamation marks, the run before the text included.
unfoldable pub exclaim_runs : ℕ → Text → List ℕ
exclaim_runs run [] = if eqb run 0 then [] else run ∷ []
exclaim_runs run (c ∷ s) =
    let more = exclaim_runs (run + 1) s in
    let rest = exclaim_runs 0 s in
    if is_exclaim c then more else if eqb run 0 then rest else run ∷ rest

unfoldable pub check_persona_violations : Text → Enforcement → List Violation
unfolding exclaim_runs contains
check_persona_violations text rules =
    map banned (keep (λ b. contains b text) rules.banned_substrings)
    ++ (elim rules.max_exclaim_run [
      | none ↦ []
      | some m ↦ map exclaim_run (keep (λ n. ltb m n) (exclaim_runs 0 text))
    ])

unfoldable pub mechanical_checks : ℕ → ℕ → Enforcement → Text → Option Reason
unfolding check_persona_violations
mechanical_checks floor cap rules text =
    if ltb (length text) floor
    then some (too_short (length text))
    else if ltb cap (length text)
    then some (too_long (length text))
    else elim (check_persona_violations text rules) [
      | [] ↦ none
      | v ∷ vs ↦ some (breaks_persona (v ∷ vs))
    ]

module _ (language : Language) where
  open language use {is_space, punctuation, nfkc, words}

  unfoldable pub strip_surfacing_markers : Text → Text
  unfolding strip without
  strip_surfacing_markers text = strip is_space (without 0 new_mark (without 0 old_mark text))

  unfoldable pub normalize_echo : Text → Text
  unfolding strip_surfacing_markers
  normalize_echo text =
      keep (λ c. not (is_space c) && not (punctuation c)) (nfkc (strip_surfacing_markers text))

  -- `pairwise_jaccard` as a fraction; 1 where no text has a word.
  unfoldable pub pairwise_jaccard : Text → Text → ℕ × ℕ
  unfolding distinct
  pairwise_jaccard a b =
      let wa = distinct (words a) in
      let wb = distinct (words b) in
      let union = wa ++ keep (λ w. not (has_text w wa)) wb in
      elim union [ [] ↦ (1, 1) | w ∷ ws ↦ (length (keep (λ w. has_text w wb) wa), length (w ∷ ws)) ]

  -- `x >= n / 10`
  abbrev pub tenths : ℕ → ℕ × ℕ → Bool
  tenths n x = leb (n * x.1) (10 * x.0)

  unfoldable pub echo_equivalent : Text → Text → Bool
  unfolding normalize_echo pairwise_jaccard
  echo_equivalent text reference =
      same (normalize_echo text) (normalize_echo reference)
      || tenths 9 (
          pairwise_jaccard (nfkc (strip_surfacing_markers text))
            (nfkc (strip_surfacing_markers reference)))

  abbrev pub sentence_end : ℕ → Bool
  sentence_end c =
      eqb c 0x3002
      || eqb c 0xff01
      || eqb c 0xff1f
      || eqb c 0xff1b
      || eqb c 46
      || eqb c 33
      || eqb c 63
      || eqb c 59
      || eqb c 10

  -- `_SENTENCE_SPLIT_RE.split(text)` with each part stripped and the empty ones left out; the first
  -- argument is the part so far.
  unfoldable pub sentences : Text → Text → List Text
  unfolding strip
  sentences part [] = keep (λ s. ltb 0 (length s)) (strip is_space part ∷ [])
  sentences part (c ∷ s) =
      let closed = keep (λ s. ltb 0 (length s)) (strip is_space part ∷ []) ++ sentences [] s in
      let longer = sentences (part ++ c ∷ []) s in if sentence_end c then closed else longer

  unfoldable pub first_restated : List Text → List Text → Option Text
  unfolding pairwise_jaccard
  first_restated pack [] = none
  first_restated pack (s ∷ ss) =
      let rest = first_restated pack ss in
      if ltb (length s) 8
      then rest
      else if any (λ p. tenths 6 (pairwise_jaccard s p)) pack
      then some s
      else rest

  abbrev pub sentences_of : List Text → List Text
  sentences_of [] = []
  sentences_of (t ∷ ts) = sentences [] t ++ sentences_of ts

  unfoldable pub restatement_overlap : Text → List Text → Option Text
  unfolding first_restated sentences
  restatement_overlap candidate pack_texts =
      first_restated (sentences_of pack_texts) (sentences [] candidate)
