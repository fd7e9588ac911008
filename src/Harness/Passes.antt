-- ===== src/Harness/Passes.antt =====
-- `_stream_one_pass` of src/dollos/harness/runner.py, with `partial_reply` of
-- src/dollos/mind/context_builder.py: one model call, what is said of it, and its tool calls. The stream
-- is what `Llm` makes of an answer; `stop` says at which event the interrupt is seen, and behind the
-- stream it is the world's. The hook `before_tools` is left out.
pub mod Answered
pub mod Spoken
mod Examples
use doll_os.Prelude.{
  ℕ, suc, Bool, true, false, Option, none, some, List, [], ◌∷◌, ◌++◌, if◌then◌else◌,
}
use doll_os.Prelude.Texts.{no_text}
use doll_os.Speech.{feed, flush}
use doll_os.Harness.ToolCalls.{ToolCall, CallOutcome, World, run_tool_calls}
use doll_os.Llm.{Message, End, Event, think_delta, speech_delta, tool_calls_event, end_event}
use doll_os.Llm.Feed.{concat}
use doll_os.Llm.Adapter.{Streamed, Failure, Raised, model_error, other_error}

-- The limit of `SentenceChunker()`.
abbrev pub chunk_max_chars : ℕ
chunk_max_chars = 120

-- The locals of the method.
pub record PassSoFar (Real : Type 0) : Type 0 where
  pub think : List (List ℕ)
  pub speech : List (List ℕ)
  pub spoken : List (List ℕ)
  pub calls : List ToolCall
  pub end : Option (End Real)
  pub buf : List ℕ

abbrev pub no_pass : {Real : Type 0} → PassSoFar Real
no_pass = record { think = []; speech = []; spoken = []; calls = []; end = none; buf = [] }

-- `_Pass`, and the sentences that were handed to `speak`.
pub record OnePass (Real : Type 0) : Type 0 where
  pub reasoning : List ℕ
  pub speech : List ℕ
  pub end : Option (End Real)
  pub outcomes : List CallOutcome
  pub reply : Option Message
  pub error : Option Failure
  pub cancelled : Bool
  pub spoken : List (List ℕ)

unfoldable pub partial_reply : List ℕ → List ℕ → Option Message
partial_reply [] [] = none
partial_reply (c ∷ s) spoken =
    some (record { content = spoken; reasoning_content = some (c ∷ s); tool_calls = [] })
partial_reply [] (c ∷ s) =
    some (record { content = c ∷ s; reasoning_content = none; tool_calls = [] })

module _ {Real : Type 0} where
  unfoldable pub cut_pass : Option Failure → Bool → PassSoFar Real → OnePass Real
  unfolding partial_reply concat
  cut_pass error cancelled p = record {
    reasoning = concat p.think;
    speech = concat p.speech;
    end = none;
    outcomes = [];
    reply = partial_reply (concat p.think) (concat p.spoken);
    error = error;
    cancelled = cancelled;
    spoken = p.spoken;
  }

module _ {Real S : Type 0} (blank : ℕ → Bool) (world : World S) (speaks : Bool) where
  abbrev pub say : Bool → List ℕ → PassSoFar Real → PassSoFar Real
  say false text p = record p { speech = p.speech ++ text ∷ [] }
  say true text p =
      let r = feed blank chunk_max_chars p.buf text in
      record p { speech = p.speech ++ text ∷ []; spoken = p.spoken ++ r.out; buf = r.buf }

  unfoldable pub take_event : Event Real → PassSoFar Real → PassSoFar Real
  unfolding feed
  take_event (think_delta text) p = record p { think = p.think ++ text ∷ [] }
  take_event (speech_delta text) p = say speaks text p
  take_event (tool_calls_event calls) p = record p { calls = calls }
  take_event (end_event e) p = record p { end = some e }

  -- The loop over the events, from the event `i` on; it says whether it was interrupted.
  unfoldable pub read_events :
      (ℕ → Bool) → ℕ → List (Event Real) → PassSoFar Real → Bool × PassSoFar Real
  unfolding take_event
  read_events stop i [] p = (false, p)
  read_events stop i (ev ∷ events) p =
      let rest = read_events stop (suc i) events (take_event ev p) in
      if stop i then (true, p) else rest

  abbrev pub spoken_all : Bool → PassSoFar Real → List (List ℕ)
  spoken_all false p = p.spoken
  spoken_all true p = p.spoken ++ flush blank p.buf

  -- The calls of a reply that is interrupted at its end.
  abbrev pub unrun : PassSoFar Real → S → List CallOutcome
  unrun p s = (run_tool_calls (record world { stop = λ t. true }) p.calls s).0

  -- Behind a whole stream. Without an end the source raises an AttributeError, which is none.
  unfoldable pub end_pass : PassSoFar Real → Option (End Real) → S → Option (OnePass Real × S)
  unfolding run_tool_calls flush concat
  end_pass p none s = none
  end_pass p (some e) s =
      let ran = run_tool_calls world p.calls s in
      if world.stop s
      then some (
        record {
          reasoning = concat p.think;
          speech = concat p.speech;
          end = some e;
          outcomes = unrun p s;
          reply = some (record e.assistant_message { content = concat p.spoken });
          error = none;
          cancelled = true;
          spoken = p.spoken;
        },
        s,
      )
      else some (
        record {
          reasoning = concat p.think;
          speech = concat p.speech;
          end = some e;
          outcomes = ran.0;
          reply = some e.assistant_message;
          error = none;
          cancelled = world.stop ran.1;
          spoken = spoken_all speaks p;
        },
        ran.1,
      )

  -- A `ModelError` of the stream is caught; another exception goes on to the caller, which is none.
  abbrev pub after_stream : Option Raised → S → Bool × PassSoFar Real → Option (OnePass Real × S)
  after_stream failure s (true, p) = some (cut_pass none true p, s)
  after_stream (some (model_error f)) s (false, p) = some (cut_pass (some f) false p, s)
  after_stream (some other_error) s (false, p) = none
  after_stream none s (false, p) = end_pass p p.end s

  unfoldable pub one_pass : (ℕ → Bool) → Streamed Real → S → Option (OnePass Real × S)
  unfolding read_events cut_pass end_pass
  one_pass stop streamed s =
      after_stream streamed.failure s (read_events stop 0 streamed.events no_pass)
