-- ===== src/Llm/Examples.antt =====
-- A reply with a thought, a sentence and two calls, the second one begun first, as lines of an answer.
use doll_os.Prelude.Floats.{whole}
use doll_os.Prelude.{
  ℕ, ◌≡◌, ◌≢◌, refl, false, none, List, [], ◌∷◌, ◌++◌, eqb, String, if◌then◌else◌,
}
use doll_os.Llm.{Fragment, Choice, read_whole, Event, Tools}
use doll_os.Llm.Adapter.{
  Payload, not_json, chunk_of, Wire, ServerAnswer, lines_of, data_mark, done_mark, stream,
}
use doll_os.Llm.Pieces.{call_at, joined, pieces_at}
use doll_os.Llm.Sorted.{Ascending}
use doll_os.Llm.Lines.{streamed_fragments}
use doll_os.Llm.Contract.{Contract, stream-Contract}
use doll_os.Llm.Calls.{calls_in, has_end, table_calls, stream-calls, stream-cut}

abbrev plain : Choice
plain = record {
  finish_reason = "";
  reasoning_content = [];
  content = [];
  tool_calls = [];
  ending = read_whole;
}

abbrev chunk_with : Choice → Payload ℕ
chunk_with ch = chunk_of (record { failed = none; usage = none; timings = none; choices = ch ∷ [] })

abbrev piece : ℕ → String → String → List ℕ → Fragment
piece i id name arguments = record { index = i; id = id; name = name; arguments = arguments }

-- A payload is one letter.
loads : List ℕ → Payload ℕ
loads [] = not_json
loads (c ∷ s) =
    if eqb c b't'
    then chunk_with (record plain { reasoning_content = b'h' ∷ [] })
    else if eqb c b's'
    then chunk_with (record plain { content = b'o' ∷ b'k' ∷ [] })
    else if eqb c b'b'
    then chunk_with (record plain {
      tool_calls = piece 1 "y" "Shell" [] ∷ piece 0 "x" "Recall" (b'{' ∷ []) ∷ [];
    })
    else if eqb c b'e'
    then chunk_with (record plain {
      tool_calls = piece 0 "" "" (b'}' ∷ []) ∷ piece 1 "z" "" (b'[' ∷ []) ∷ [];
      finish_reason = "tool_calls";
    })
    else not_json

abbrev wire : Wire ℕ
wire = record { blank = λ c. eqb c 32; loads = loads }

abbrev line : ℕ → ℕ × List ℕ
line c = (5, data_mark ++ (b' ' ∷ c ∷ []))

abbrev lines : List (ℕ × List ℕ)
lines =
    line b't'
    ∷ (5, [])
    ∷ line b's'
    ∷ line b'b'
    ∷ line b'e'
    ∷ (6, data_mark ++ (b' ' ∷ done_mark))
    ∷ []

-- The pieces are put together, in the order of their indices.
two_calls :
    calls_in (stream whole wire 0 (lines_of lines)).events
    ≡ record { id = "x"; name = "Recall"; arguments = b'{' ∷ b'}' ∷ [] }
      ∷ record { id = "y"; name = "Shell"; arguments = b'[' ∷ [] }
      ∷ []
unfolding stream calls_in loads
two_calls = refl

stream-Contract_example : Contract whole wire (stream whole wire 0 (lines_of lines))
stream-Contract_example = stream-Contract whole wire 0 (lines_of lines)

stream-calls_example :
    (tools : Tools) × (calls_in (stream whole wire 0 (lines_of lines)).events ≡ table_calls tools)
    × Ascending tools
    × ((i : ℕ) → call_at i tools ≡ joined (pieces_at i (streamed_fragments wire lines)))
unfolding stream loads
stream-calls_example = stream-calls whole wire 0 lines refl refl

abbrev cut_lines : List (ℕ × List ℕ)
cut_lines = line b's' ∷ line b'b' ∷ []

stream-cut_example :
    ((stream whole wire 0 (lines_of cut_lines)).failure ≢ none)
    × (calls_in (stream whole wire 0 (lines_of cut_lines)).events ≡ [])
    × (has_end (stream whole wire 0 (lines_of cut_lines)).events ≡ false)
unfolding loads doll_os.Llm.Adapter.read_line
stream-cut_example = stream-cut whole wire 0 cut_lines refl
