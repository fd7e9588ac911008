-- ===== src/Llm/Calls.antt =====
-- Which calls a streamed reply makes.
use mathlib.Core.List.{append-nil}
use doll_os.Prelude.Floats.{Floats}
use doll_os.Prelude.{
  ℕ, String, ◌≡◌, refl, sym, ap, ◌∙◌, Bool, true, false, Option, none, some, List, [], ◌∷◌, ◌++◌,
  map, All, ◌≢◌,
}
use doll_os.Harness.ToolCalls.{ToolCall}
use doll_os.Llm.{Tools, Event, think_delta, speech_delta, tool_calls_event, end_event, End}
use doll_os.Llm.Feed.{settle, kept, sorted_calls, finish, settled, new_reply, add_fragments, end_of}
use doll_os.Llm.Adapter.{
  Wire, lines_of, Streamed, Raised, calls_event, with_end, conclude, conclude_unless, stream,
  read_lines,
}
use doll_os.Llm.Pieces.{call_at, joined, pieces_at, call_at-add_fragments}
use doll_os.Llm.Sorted.{
  Ascending, add_fragments-Distinct, call_at-sorted_calls, sorted_calls-Ascending,
}
use doll_os.Llm.Deltas.{IsDelta}
use doll_os.Llm.Lines.{streamed_fragments, has_done, read_lines-Consumed}

-- The calls that are announced.
unfoldable pub calls_in : {Real : Type 0} → List (Event Real) → List ToolCall
calls_in [] = []
calls_in (tool_calls_event cs ∷ es) = cs ++ calls_in es
calls_in (think_delta s ∷ es) = calls_in es
calls_in (speech_delta s ∷ es) = calls_in es
calls_in (end_event e ∷ es) = calls_in es

-- Some event ends the call.
unfoldable pub has_end : {Real : Type 0} → List (Event Real) → Bool
has_end [] = false
has_end (tool_calls_event cs ∷ es) = has_end es
has_end (think_delta s ∷ es) = has_end es
has_end (speech_delta s ∷ es) = has_end es
has_end (end_event e ∷ es) = true

module _ {Real : Type 0} where
  calls_in-deltas : (es fs : List (Event Real)) → All IsDelta es → calls_in (es ++ fs) ≡ calls_in fs
  unfolding calls_in
  calls_in-deltas [] fs h = refl
  calls_in-deltas (think_delta s ∷ es) fs h = calls_in-deltas es fs h.1
  calls_in-deltas (speech_delta s ∷ es) fs h = calls_in-deltas es fs h.1
  calls_in-deltas (tool_calls_event cs ∷ es) fs h = absurd h.0
  calls_in-deltas (end_event e ∷ es) fs h = absurd h.0

  only_deltas :
      (es : List (Event Real)) → All IsDelta es → (calls_in es ≡ []) × (has_end es ≡ false)
  unfolding calls_in has_end
  only_deltas [] h = (refl, refl)
  only_deltas (think_delta s ∷ es) h = only_deltas es h.1
  only_deltas (speech_delta s ∷ es) h = only_deltas es h.1
  only_deltas (tool_calls_event cs ∷ es) h = absurd h.0
  only_deltas (end_event e ∷ es) h = absurd h.0

settle-tool_calls :
    (calls : List ToolCall) (reason : String)
    → reason ≡ "tool_calls"
    → settle calls reason ≡ kept calls
unfolding settle
settle-tool_calls [] reason h = refl
settle-tool_calls (c ∷ calls) reason h = rw h refl

calls_in-event :
    {Real : Type 0} (calls : List ToolCall) (es : List (Event Real))
    → calls_in es ≡ []
    → calls_in (calls_event calls ++ es) ≡ calls
unfolding calls_in
calls_in-event [] es h = h
calls_in-event (c ∷ calls) es h = rw h (append-nil (c ∷ calls))

abbrev pub table_calls : Tools → List ToolCall
table_calls tools = map (λ (e : ℕ × ToolCall). e.1) tools

module _ (floats : Floats) (wire : Wire floats.Real) where
  open floats use {Real}

  with_end-reply :
      (s : Streamed Real) (o : Option (List ToolCall × End Real))
      → (with_end floats wire s o).reply ≡ s.reply
  with_end-reply s none = refl
  with_end-reply s (some (calls, e)) = refl

  conclude-calls :
      (start : Real) (s : Streamed Real) (o : Option Raised)
      → All IsDelta s.events
      → (conclude_unless floats wire start s o).failure ≡ none
      → (conclude_unless floats wire start s o).reply.finish_reason ≡ "tool_calls"
      → calls_in (conclude_unless floats wire start s o).events
        ≡ table_calls (sorted_calls s.reply.tools)
  unfolding finish calls_in
  conclude-calls start s (some f) d h r = cc
  conclude-calls start s none d h r =
      let calls = table_calls (sorted_calls s.reply.tools) in
      ap (λ w. calls_in (with_end floats wire s (settled floats start s.reply w)).events)
        (settle-tool_calls calls s.reply.finish_reason
          (ap (λ q. q.finish_reason) (sym (with_end-reply s (finish floats start s.reply))) ∙ r))
      ∙ calls_in-deltas s.events
          (calls_event calls ++ end_event (end_of floats start calls 0 s.reply) ∷ []) d
      ∙ calls_in-event calls (end_event (end_of floats start calls 0 s.reply) ∷ []) refl

  conclude-none :
      (start : Real) (s : Streamed Real) (o : Option Raised)
      → (conclude_unless floats wire start s o).failure ≡ none
      → o ≡ none
  conclude-none start s (some f) h = cc
  conclude-none start s none h = refl

  -- A call that does not fail, and whose reply ends for its tool calls, announces in ascending order of
  -- index one call for each index that a piece has, made of the pieces with that index: the first id
  -- and the first name that is given, and all arguments in their order.
  pub stream-calls :
      (start : Real) (lines : List (Real × List ℕ))
      → (stream floats wire start (lines_of lines)).failure ≡ none
      → (stream floats wire start (lines_of lines)).reply.finish_reason ≡ "tool_calls"
      → (tools : Tools) × (calls_in (stream floats wire start (lines_of lines)).events
          ≡ table_calls tools)
        × Ascending tools
        × ((i : ℕ) → call_at i tools ≡ joined (pieces_at i (streamed_fragments wire lines)))
  unfolding stream conclude
  stream-calls start lines h r =
      let s = read_lines wire lines new_reply in
      let consumed = read_lines-Consumed wire lines new_reply in
      let read = consumed.read (conclude-none start s s.failure h) in
      let fs = streamed_fragments wire lines in
      let apart = add_fragments-Distinct fs [] tt in
      (
        sorted_calls (add_fragments [] fs),
        conclude-calls start s s.failure read.deltas h r
            ∙ ap (λ t. table_calls (sorted_calls t)) read.pieces,
        sorted_calls-Ascending (add_fragments [] fs) apart,
        λ i. call_at-sorted_calls i (add_fragments [] fs) apart ∙ call_at-add_fragments i fs,
      )

  cut_conclude :
      (start : Real) (s : Streamed Real) (o : Option Raised)
      → o ≢ none
      → All IsDelta s.events
      → ((conclude_unless floats wire start s o).failure ≢ none)
        × (calls_in (conclude_unless floats wire start s o).events ≡ [])
        × (has_end (conclude_unless floats wire start s o).events ≡ false)
  cut_conclude start s (some f) h d =
      (λ e. cc, (only_deltas s.events d).0, (only_deltas s.events d).1)
  cut_conclude start s none h d = absurd (h refl)

  -- An answer that is cut before its mark of the end, at any line, fails; it announces no call and
  -- has no end.
  pub stream-cut :
      (start : Real) (lines : List (Real × List ℕ))
      → has_done wire lines ≡ false
      → ((stream floats wire start (lines_of lines)).failure ≢ none)
        × (calls_in (stream floats wire start (lines_of lines)).events ≡ [])
        × (has_end (stream floats wire start (lines_of lines)).events ≡ false)
  unfolding stream conclude
  stream-cut start lines h =
      let s = read_lines wire lines new_reply in
      let c = read_lines-Consumed wire lines new_reply in
      cut_conclude start s s.failure (c.cut h) c.deltas
