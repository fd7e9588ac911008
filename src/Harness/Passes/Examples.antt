-- ===== src/Harness/Passes/Examples.antt =====
-- A pass over an answer that says a sentence and calls a tool, run to its end and interrupted.
use doll_os.Prelude.Floats.{whole}
use doll_os.Prelude.{
  ℕ, ◌-◌, ◌≡◌, refl, Bool, true, Option, none, some, List, [], ◌∷◌, ◌++◌, eqb, if◌then◌else◌, false,
  String,
}
use doll_os.Speech.Content.{ink, all_ink}
use doll_os.Harness.ToolCalls.{World, object, ToolCall, ok_text}
use doll_os.Llm.{Choice, read_whole, bad_piece, Message}
use doll_os.Llm.Adapter.{
  Payload, not_json, chunk_of, Wire, ServerAnswer, lines_of, done_mark, stream,
}
use doll_os.Harness.Passes.{OnePass, one_pass}
use doll_os.Harness.Passes.Answered.{Outcome, one_pass-Answered}
use doll_os.Harness.Thread.{Posted, to_pass, IsAnswered, run_turn-IsAnswered}
use doll_os.Harness.TurnPolicy.{policies, conversation}
use doll_os.Harness.Executor.{text}
use doll_os.Harness.Runner.{run_turn}
use doll_os.Llm.Feed.{no_timings}
use doll_os.Harness.Passes.Spoken.{never, one_pass-spoken}

-- The state says how many calls run before the interrupt comes.
abbrev world : World ℕ
world = record {
  Args = List ℕ;
  parse = object;
  dispatch = λ name args s. (none, s - 1);
  stop = λ s. eqb s 0;
  note = λ n. [];
}

abbrev plain : Choice
plain = record {
  finish_reason = "";
  reasoning_content = [];
  content = [];
  tool_calls = [];
  ending = read_whole;
}

abbrev chunk_with : Choice → Payload ℕ
chunk_with ch = chunk_of (record { failed = none; usage = none; timings = none; choices = ch ∷ [] })

loads : List ℕ → Payload ℕ
loads [] = not_json
loads (c ∷ s) =
    if eqb c b's'
    then chunk_with (record plain { content = b'O' ∷ b'k' ∷ b'.' ∷ [] })
    else chunk_with (record plain {
      finish_reason = "tool_calls";
      tool_calls =
          record { index = 0; id = "x"; name = "Recall"; arguments = b'{' ∷ b'}' ∷ [] } ∷ [];
    })

abbrev wire : Wire ℕ
wire = record { blank = λ c. eqb c 32; loads = loads }

abbrev answer : ServerAnswer ℕ
answer = lines_of ((1, b's' ∷ []) ∷ (2, b'c' ∷ []) ∷ (3, done_mark) ∷ [])

abbrev blank : ℕ → Bool
blank c = eqb c 32

-- Interrupted at the end of the stream, the call is answered as not run and the reply keeps nothing
-- that was not spoken.
abbrev content_of : Option (OnePass ℕ × ℕ) → Option Message
content_of none = none
content_of (some r) = r.0.reply

interrupted :
    content_of (one_pass blank world true never (stream whole wire 0 answer) 0)
    ≡ some (record {
      content = [];
      reasoning_content = none;
      tool_calls = record { id = "x"; name = "Recall"; arguments = b'{' ∷ b'}' ∷ [] } ∷ [];
    })
unfolding one_pass stream loads
interrupted = refl

-- A chunk with a piece that has no index: the exception leaves the pass.
abbrev shapeless : Wire ℕ
shapeless = record wire { loads = λ s. chunk_with (record plain { ending = bad_piece }) }

shapeless-raises : one_pass blank world true never (stream whole shapeless 0 answer) 2 ≡ none
unfolding one_pass stream
shapeless-raises = refl

one_pass-Answered_example :
    Outcome whole wire blank world true
      (stream whole wire 0 answer).failure
      (one_pass blank world true (λ i. eqb i 1) (stream whole wire 0 answer) 2)
one_pass-Answered_example = one_pass-Answered whole wire blank world true 0 answer (λ i. eqb i 1) 2

one_pass-spoken_example :
    (o : OnePass ℕ) × (t : ℕ) × (m : Message) × (one_pass blank world true never
        (stream whole wire 0 answer)
        2
      ≡ some (o, t))
    × (o.reply ≡ some m)
    × (all_ink blank o.spoken ≡ ink blank m.content)
unfolding stream loads
one_pass-spoken_example = one_pass-spoken whole wire blank world 0 answer 2 refl refl

-- The pass that runs to its end.
abbrev recall : ToolCall
recall = record { id = "x"; name = "Recall"; arguments = b'{' ∷ b'}' ∷ [] }

abbrev message : Message
message = record {
  content = b'O' ∷ b'k' ∷ b'.' ∷ [];
  reasoning_content = none;
  tool_calls = recall ∷ [];
}

abbrev whole_pass : OnePass ℕ
whole_pass = record {
  reasoning = [];
  speech = b'O' ∷ b'k' ∷ b'.' ∷ [];
  end = some (record {
    finish_reason = "tool_calls";
    usage = record {
      server = record { prompt_tokens = none; completion_tokens = none };
      timed = no_timings;
    };
    assistant_message = message;
    ttft_ms = some 1000;
    dropped_tool_calls = 0;
    think_capped = false;
  });
  outcomes =
      record {
        call = recall;
        result = record { tool_name = "Recall"; success = true; detail = ok_text; refused = false };
        message = record { tool_call_id = "x"; content = ok_text };
      }
      ∷ [];
  reply = some message;
  error = none;
  cancelled = false;
  spoken = (b'O' ∷ b'k' ∷ b'.' ∷ []) ∷ [];
}

whole_pass-came :
    one_pass blank world true never (stream whole wire 0 answer) 2 ≡ some (whole_pass, 1)
unfolding one_pass stream loads
whole_pass-came = refl

run_turn-IsAnswered_example :
    (added : List Posted) × ((run_turn Posted String
        (policies conversation)
        (λ i. to_pass String (λ d. text "") false none whole_pass)
        []).messages
      ≡ [] ++ added)
    × IsAnswered added
run_turn-IsAnswered_example =
    run_turn-IsAnswered whole wire blank world true String (λ d. text "") (policies conversation) []
      (λ i. whole_pass) (λ i. false) (λ i. none) (λ i. 0) (λ i. answer) (λ i. never) (λ i. 2)
      (λ i. 1) (λ i. whole_pass-came)
