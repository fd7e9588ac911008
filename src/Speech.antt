-- ===== src/Speech.antt =====
-- src/dollos/cascade/sentence_chunker.py: streamed text, cut into sentences for speech.
-- Text is its code points. `str.strip` removes Unicode white space, the parameter `blank`. An index
-- `i` into the buffer is the split of the buffer into `seen` and the rest. Both loops take fuel, the
-- length of what they walk, and tell whether they ended before it ran out. With a limit of zero the
-- second loop of the source goes on for ever, and the one here runs out of fuel.
pub mod Content
pub mod Limits
mod Examples
use doll_os.Prelude.{
  ℕ, zero, suc, ◌+◌, Bool, true, false, not, ◌&&◌, ◌||◌, List, [], ◌∷◌, ◌++◌, ltb, leb, eqb,
  if◌then◌else◌, length, take, drop, any,
}

-- `_FULL_STOP`
abbrev pub full_stop : ℕ → Bool
full_stop c = eqb c 0x3002 || eqb c 0xff1f || eqb c 0xff01 || eqb c 10

-- `_HALF_STOP`
abbrev pub half_stop : ℕ → Bool
half_stop c = eqb c b'.' || eqb c b'?' || eqb c b'!'

-- `_SPACE`
abbrev pub space : ℕ → Bool
space c = eqb c 32 || eqb c 10

-- The longest start of a text whose code points pass a test, and what follows it.
unfoldable pub run_of : (ℕ → Bool) → List ℕ → List ℕ
run_of p [] = []
run_of p (c ∷ s) = if p c then c ∷ run_of p s else []

unfoldable pub after_run : (ℕ → Bool) → List ℕ → List ℕ
after_run p [] = []
after_run p (c ∷ s) = if p c then after_run p s else c ∷ s

-- What the code point at `i` leads to: wait for the next text, go on `k` code points further, or end
-- a sentence after `k` code points.
pub data Look : Type 0 where
  wait : Look
  pass : ℕ → Look
  close : ℕ → Look

-- A run of half stops ends a sentence if white space follows it.
unfoldable pub look_half : List ℕ → List ℕ → Look
look_half stops [] = wait
look_half stops (d ∷ after) =
    if space d
    then close (suc (length stops + length (run_of space (d ∷ after))))
    else pass (suc (length stops))

unfoldable pub look : List ℕ → Look
unfolding run_of after_run look_half
look [] = wait
look (c ∷ rest) =
    if half_stop c
    then look_half (run_of half_stop rest) (after_run half_stop rest)
    else if full_stop c
    then close (suc (length (run_of space rest)))
    else pass 1

pub record Chunks : Type 0 where
  pub out : List (List ℕ)
  pub buf : List ℕ
  pub ended : Bool

-- `buf.rfind(" ", 0, limit) + 1`
unfoldable pub last_space : ℕ → List ℕ → ℕ
last_space zero s = 0
last_space (suc n) [] = 0
last_space (suc n) (c ∷ s) =
    let k = last_space n s in if ltb 0 k then suc k else if eqb c 32 then 1 else 0

-- `buf.rfind(" ", 0, max + 1) + 1 or max`
unfoldable pub cut_at : ℕ → List ℕ → ℕ
unfolding last_space
cut_at max_chars s = let k = last_space (suc max_chars) s in if eqb k 0 then max_chars else k

module _ (blank : ℕ → Bool) where
  -- `bool(text.strip())`
  unfoldable pub speakable : List ℕ → Bool
  speakable s = any (λ c. not (blank c)) s

  -- Put a piece in front of the output unless it is only white space.
  unfoldable pub emit : List ℕ → Chunks → Chunks
  unfolding speakable
  emit s r = if speakable s then record r { out = s ∷ r.out } else r

  -- The first loop of `feed`: `seen` is the buffer before `i`, `rest` the buffer from `i` on.
  unfoldable pub scan : ℕ → List ℕ → List ℕ → Chunks
  unfolding look emit
  scan zero seen [] = record { out = []; buf = seen ++ []; ended = true }
  scan zero seen (c ∷ rest) = record { out = []; buf = seen ++ c ∷ rest; ended = false }
  scan (suc fuel) seen rest = elim (look rest) [
    | wait ↦ record { out = []; buf = seen ++ rest; ended = true }
    | pass k ↦ scan fuel (seen ++ take k rest) (drop k rest)
    | close k ↦ emit (seen ++ take k rest) (scan fuel [] (drop k rest))
  ]

  -- The second loop of `feed`: what is too long is cut.
  unfoldable pub force : ℕ → ℕ → List ℕ → Chunks
  unfolding cut_at emit
  force max_chars zero s = record { out = []; buf = s; ended = ltb (length s) max_chars }
  force max_chars (suc fuel) s = elim (leb max_chars (length s)) [
    | false ↦ record { out = []; buf = s; ended = true }
    | true ↦ emit (take (cut_at max_chars s) s) (force max_chars fuel (drop (cut_at max_chars s) s))
  ]

  unfoldable pub feed : ℕ → List ℕ → List ℕ → Chunks
  unfolding scan force
  feed max_chars buf text =
      let sentences = scan (length (buf ++ text)) [] (buf ++ text) in
      let forced = force max_chars (length sentences.buf) sentences.buf in
      record {
        out = sentences.out ++ forced.out;
        buf = forced.buf;
        ended = sentences.ended && forced.ended;
      }

  unfoldable pub flush : List ℕ → List (List ℕ)
  unfolding emit
  flush buf = (emit buf (record { out = []; buf = []; ended = true })).out

  -- A reply: every text that is fed, in order, and the flush at its end.
  unfoldable pub feed_all : ℕ → List ℕ → List (List ℕ) → List (List ℕ)
  unfolding feed flush
  feed_all max_chars buf [] = flush buf
  feed_all max_chars buf (text ∷ texts) =
      let r = feed max_chars buf text in r.out ++ feed_all max_chars r.buf texts
