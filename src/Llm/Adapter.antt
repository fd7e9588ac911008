-- ===== src/Llm/Adapter.antt =====
-- `ChatCompletionsAdapter` of src/dollos/llm/chat_completions.py: `stream`, for a reader that takes
-- every event, and `_account`. What the server answers is an input, each line with the time at which it is
-- read; `json.loads` and the white space of `str.strip` are the parameter `Wire`.
use doll_os.Prelude.Floats.{Floats}
use doll_os.Prelude.Texts.{starts_with, strip, no_text}
use doll_os.Prelude.{
  ℕ, ◌-◌, Bool, Option, none, some, List, [], ◌∷◌, ◌++◌, ltb, if◌then◌else◌, drop, ◌||◌, String,
}
use doll_os.Harness.ToolCalls.{ToolCall}
use doll_os.Evolution.Texts.{same}
use doll_os.Llm.{Timings, Chunk, Reply, End, Event, tool_calls_event, end_event}
use doll_os.Llm.Feed.{Fed, fed, refused, crashed, feed, finish, new_reply, no_timings, ms_since}

-- `ModelErrorKind`
pub data Failure : Type 0 where
  transport server : Failure

-- What `stream` raises: a `ModelError`, or the exception of a chunk that has not the shape it reads.
pub data Raised : Type 0 where
  model_error : Failure → Raised
  other_error : Raised

-- What `httpx` gives: an error with no response, an HTTP error, or lines. The lines end by themselves or by
-- an error.
pub data ServerAnswer (Real : Type 0) : Type 0 where
  unreachable : ServerAnswer Real
  http_error : ℕ → ServerAnswer Real
  lines_of : List (Real × List ℕ) → ServerAnswer Real

-- What stands before a payload, and the payload that ends the stream.
abbrev pub data_mark : List ℕ
data_mark = b'd' ∷ b'a' ∷ b't' ∷ b'a' ∷ b':' ∷ []

abbrev pub done_mark : List ℕ
done_mark = b'[' ∷ b'D' ∷ b'O' ∷ b'N' ∷ b'E' ∷ b']' ∷ []

-- What `json.loads` makes of a payload: it raises, or a value that is no object, or a chunk.
pub data Payload (Real : Type 0) : Type 0 where
  not_json not_object : Payload Real
  chunk_of : Chunk Real → Payload Real

pub record Wire (Real : Type 0) : Type 0 where
  pub blank : ℕ → Bool
  pub loads : List ℕ → Payload Real

pub data SseLine (Real : Type 0) : Type 0 where
  skipped done bad shapeless : SseLine Real
  chunk : Chunk Real → SseLine Real

-- `line.removeprefix("data:")`
unfoldable pub remove_data : List ℕ → List ℕ
unfolding starts_with
remove_data line = if starts_with data_mark line then drop 5 line else line

abbrev pub parsed : {Real : Type 0} → Payload Real → SseLine Real
parsed not_json = bad
parsed not_object = shapeless
parsed (chunk_of c) = chunk c

-- The events that are yielded, the reply, and the error if one is raised.
pub record Streamed (Real : Type 0) : Type 0 where
  pub events : List (Event Real)
  pub reply : Reply Real
  pub failure : Option Raised

abbrev pub after_events : {Real : Type 0} → List (Event Real) → Streamed Real → Streamed Real
after_events es s = record s { events = es ++ s.events }

-- A loop that ends with an exception.
abbrev pub raised_with : {Real : Type 0} → Reply Real → Raised → Streamed Real
raised_with r e = record { events = []; reply = r; failure = some e }

module _ {Real : Type 0} (wire : Wire Real) where
  open wire use {blank, loads}

  unfoldable pub read_line : List ℕ → SseLine Real
  unfolding strip remove_data same starts_with
  read_line line =
      if no_text line || starts_with (b':' ∷ []) line
      then skipped
      else if same (strip blank (remove_data line)) done_mark
      then done
      else parsed (loads (strip blank (remove_data line)))

  abbrev pub after_feed : Reply Real → (Reply Real → Streamed Real) → Fed Real → Streamed Real
  after_feed r rest refused = raised_with r (model_error server)
  after_feed r rest (crashed q) = raised_with q other_error
  after_feed r rest (fed es q) = after_events es (rest q)

  -- What a line leads to; `rest` is the loop over the lines behind it.
  unfoldable pub after_line :
      Real → Reply Real → (Reply Real → Streamed Real) → SseLine Real → Streamed Real
  unfolding feed
  after_line now r rest skipped = rest r
  after_line now r rest done = record { events = []; reply = r; failure = none }
  after_line now r rest bad = raised_with r (model_error server)
  after_line now r rest shapeless = raised_with r other_error
  after_line now r rest (chunk c) = after_feed r rest (feed now c r)

  -- The loop over the lines. The failure is none where it ends by the mark of the end.
  unfoldable pub read_lines : List (Real × List ℕ) → Reply Real → Streamed Real
  unfolding read_line after_line
  read_lines [] r = raised_with r (model_error transport)
  read_lines ((now, line) ∷ lines) r = after_line now r (λ q. read_lines lines q) (read_line line)

abbrev pub calls_event : {Real : Type 0} → List ToolCall → List (Event Real)
calls_event [] = []
calls_event (c ∷ calls) = tool_calls_event (c ∷ calls) ∷ []

module _ (floats : Floats) (wire : Wire floats.Real) where
  open floats use {Real, number, mul, div}

  abbrev pub with_end : Streamed Real → Option (List ToolCall × End Real) → Streamed Real
  with_end s none = record s { failure = some (model_error server) }
  with_end s (some (calls, e)) = record {
    events = s.events ++ (calls_event calls ++ end_event e ∷ []);
    reply = s.reply;
    failure = none;
  }

  abbrev pub conclude_unless : Real → Streamed Real → Option Raised → Streamed Real
  conclude_unless start s (some f) = record s { failure = some f }
  conclude_unless start s none = with_end s (finish floats start s.reply)

  unfoldable pub conclude : Real → Streamed Real → Streamed Real
  unfolding finish
  conclude start s = conclude_unless start s s.failure

  unfoldable pub stream : Real → ServerAnswer Real → Streamed Real
  unfolding read_lines conclude
  stream start unreachable = raised_with new_reply (model_error transport)
  stream start (http_error status) =
      raised_with new_reply (model_error (if ltb status 500 then server else transport))
  stream start (lines_of lines) = conclude start (read_lines wire lines new_reply)

-- What the telemetry keeps of a call, besides its purpose and its conversation.
pub record CallRecord (Real : Type 0) : Type 0 where
  pub prompt_tokens : Option ℕ
  pub completion_tokens : Option ℕ
  pub latency_ttft_ms : Option Real
  pub latency_total_ms : Option Real
  pub error : Option Raised
  pub context_pct : Option Real
  pub finish_reason : String
  pub timed : Timings Real
  pub first_content_ms : Option Real
  pub think_capped : Option Bool
  pub new_prompt_tokens : Option ℕ

-- What a prompt adds to the call before it; `max(n - prior, 0)` is `-` on ℕ.
abbrev pub new_tokens : ℕ → Option ℕ → Option ℕ
new_tokens prior none = none
new_tokens prior (some n) = some (n - prior)

-- The timings and the think cap are those of the end, if the call has one.
abbrev pub end_timings : {Real : Type 0} → Option (End Real) → Timings Real
end_timings none = no_timings
end_timings (some e) = e.usage.timed

abbrev pub end_capped : {Real : Type 0} → Option (End Real) → Option Bool
end_capped none = none
end_capped (some e) = some e.think_capped

abbrev pub end_reason : {Real : Type 0} → Option (End Real) → String
end_reason none = ""
end_reason (some e) = e.finish_reason

module _ (floats : Floats) where
  open floats use {Real, number, mul, div}

  abbrev pub context_share : ℕ → Option ℕ → Option Real
  context_share most none = none
  context_share most (some n) = some (mul (div (number n) (number most)) (number 100))

  -- What `on_usage` and the recorder are given, with the time at which the call is accounted.
  unfoldable pub account :
      ℕ
      → ℕ
      → Real
      → Real
      → Streamed Real
      → Option (End Real)
      → (Option ℕ × Option ℕ) × CallRecord Real
  unfolding ms_since
  account most prior start now s with_end = (
    (new_tokens prior s.reply.usage.prompt_tokens, s.reply.usage.completion_tokens),
    record {
      prompt_tokens = s.reply.usage.prompt_tokens;
      completion_tokens = s.reply.usage.completion_tokens;
      latency_ttft_ms = ms_since floats start s.reply.first_token_t;
      latency_total_ms = ms_since floats start (some now);
      error = s.failure;
      context_pct = context_share most s.reply.usage.prompt_tokens;
      finish_reason = end_reason with_end;
      timed = end_timings with_end;
      first_content_ms = ms_since floats start s.reply.first_content_t;
      think_capped = end_capped with_end;
      new_prompt_tokens = new_tokens prior s.reply.usage.prompt_tokens;
    },
  )
