-- ===== src/Llm/Contract.antt =====
-- What `ModelAdapter` of src/dollos/llm/model.py promises of a call, shown of the adapter.
use mathlib.Core.List.{append-nil}
use doll_os.Prelude.Floats.{Floats}
use doll_os.Prelude.{ℕ, ◌≡◌, refl, sym, ◌∙◌, Option, none, some, List, [], ◌∷◌, ◌++◌, All}
use doll_os.Harness.ToolCalls.{ToolCall}
use doll_os.Llm.{Reply, End, Event, end_event}
use doll_os.Llm.Feed.{
  kept, dropped, raised, Settled, finish, end_of, concat, new_reply, or_last, settled,
}
use doll_os.Llm.Adapter.{
  server, model_error, Wire, ServerAnswer, unreachable, http_error, lines_of, Streamed, Raised,
  calls_event, with_end, conclude, conclude_unless, stream, read_lines,
}
use doll_os.Llm.Deltas.{IsDelta, said_in, thought_in}
use doll_os.Llm.Lines.{read_lines-Consumed}

module _ (floats : Floats) (wire : Wire floats.Real) where
  open floats use {Real}

  -- The end of a call whose deltas are given: its message says and thinks what they do, and has the
  -- calls that are announced before it.
  pub record Closes (deltas : List (Event Real)) (calls : List ToolCall) (e : End Real)
      : Type 0 where
    pub content : e.assistant_message.content ≡ said_in deltas
    pub thinking : or_last e.assistant_message.reasoning_content [] ≡ thought_in deltas
    pub calls_of : e.assistant_message.tool_calls ≡ calls

  -- What stands behind the deltas: nothing behind a failure, and else the calls, if there are any,
  -- and one end.
  abbrev pub Tail : Option Raised → List (Event Real) → List (Event Real) → Type 0
  Tail (some f) deltas tail = tail ≡ []
  Tail none deltas tail =
      (calls : List ToolCall) × (e : End Real) × (tail ≡ calls_event calls ++ end_event e ∷ [])
      × Closes deltas calls e

  pub record Contract (s : Streamed Real) : Type 0 where
    pub deltas : List (Event Real)
    pub tail : List (Event Real)
    pub split : s.events ≡ deltas ++ tail
    pub only : All IsDelta deltas
    pub closed : Tail s.failure deltas tail

  -- A reply of which the events are the deltas.
  record Told (es : List (Event Real)) (r : Reply Real) : Type 0 where
    pub speech : concat r.speech ≡ said_in es
    pub think : concat r.think ≡ thought_in es

  end_of-Closes :
      (start : Real) (calls : List ToolCall) (n : ℕ) (es : List (Event Real)) (r : Reply Real)
      → Told es r
      → Closes es calls (end_of floats start calls n r)
  unfolding end_of
  end_of-Closes start calls n es r h = record {
    content = h.speech;
    thinking = thinking_of r.think ∙ h.think;
    calls_of = refl;
  }
    where
      thinking_of :
          (xs : List (List ℕ))
          → or_last (elim xs [ [] ↦ none | s ∷ ss ↦ some (concat (s ∷ ss)) ]) [] ≡ concat xs
      thinking_of [] = refl
      thinking_of (s ∷ ss) = refl

  failed-Contract :
      (s : Streamed Real) (f : Raised)
      → All IsDelta s.events
      → Contract (record s { failure = some f })
  failed-Contract s f d = record {
    deltas = s.events;
    tail = [];
    split = sym (append-nil s.events);
    only = d;
    closed = refl;
  }

  settled-Contract :
      (start : Real) (s : Streamed Real) (w : Settled)
      → All IsDelta s.events
      → Told s.events s.reply
      → Contract (with_end floats wire s (settled floats start s.reply w))
  settled-Contract start s (kept calls) d h = record {
    deltas = s.events;
    tail = calls_event calls ++ end_event (end_of floats start calls 0 s.reply) ∷ [];
    split = refl;
    only = d;
    closed = (
      calls,
      end_of floats start calls 0 s.reply,
      refl,
      end_of-Closes start calls 0 s.events s.reply h,
    );
  }
  settled-Contract start s (dropped n) d h = record {
    deltas = s.events;
    tail = end_event (end_of floats start [] n s.reply) ∷ [];
    split = refl;
    only = d;
    closed =
        ([], end_of floats start [] n s.reply, refl, end_of-Closes start [] n s.events s.reply h);
  }
  settled-Contract start s raised d h = failed-Contract s (model_error server) d

  conclude-Contract :
      (start : Real) (s : Streamed Real) (o : Option Raised)
      → All IsDelta s.events
      → (o ≡ none → Told s.events s.reply)
      → Contract (conclude_unless floats wire start s o)
  unfolding finish
  conclude-Contract start s (some f) d h = failed-Contract s f d
  conclude-Contract start s none d h = settled-Contract start s _ d (h refl)

  -- Whatever the server answers: the events are deltas of speech and thought, and behind them nothing
  -- if the call fails, and else the calls, if there are any, and one end. Its message says and thinks
  -- what the deltas do, and has the calls that are announced.
  pub stream-Contract :
      (start : Real) (answer : ServerAnswer Real) → Contract (stream floats wire start answer)
  unfolding stream conclude concat
  stream-Contract start unreachable = record {
    deltas = [];
    tail = [];
    split = refl;
    only = tt;
    closed = refl;
  }
  stream-Contract start (http_error status) = record {
    deltas = [];
    tail = [];
    split = refl;
    only = tt;
    closed = refl;
  }
  stream-Contract start (lines_of lines) =
      let s = read_lines wire lines new_reply in
      let c = read_lines-Consumed wire lines new_reply in
      conclude-Contract start s s.failure c.deltas
        λ e. let h = c.read e in record { speech = h.speech; think = h.think }
