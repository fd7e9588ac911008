-- ===== src/Llm.antt =====
-- What src/dollos/llm/chat_completions.py reads and yields: the chunks of a streamed reply, the reply
-- so far (`_Reply`), and the events and records of src/dollos/llm/model.py. A text is its code points.
-- The source asks of an optional text only whether it has one, so a missing text is the empty one. Texts,
-- indices and counts are taken to be that; a choice, a delta or a piece of another shape is one at which
-- the source raises.
pub mod Feed
pub mod Adapter
pub mod Pieces
pub mod Sorted
pub mod Deltas
pub mod Lines
pub mod Contract
pub mod Calls
mod Examples
use doll_os.Prelude.{ℕ, String, Bool, Option, List}
use doll_os.Harness.ToolCalls.{ToolCall}

-- A piece of a tool call.
pub record Fragment : Type 0 where
  pub index : ℕ
  pub id : String
  pub name : String
  pub arguments : List ℕ

-- Whether the source reads a choice to its end, raises at a piece behind those that the choice has (it is
-- no object, or has no index), or before the first piece (the choice or its delta is no object, or
-- its pieces are no list).
pub data Ending : Type 0 where
  read_whole bad_piece bad_choice : Ending

-- What the source reads of a choice and its delta.
pub record Choice : Type 0 where
  pub finish_reason : String
  pub reasoning_content : List ℕ
  pub content : List ℕ
  pub tool_calls : List Fragment
  pub ending : Ending

pub record ServerUsage : Type 0 where
  pub prompt_tokens : Option ℕ
  pub completion_tokens : Option ℕ

pub record Timings (Real : Type 0) : Type 0 where
  pub cache_n : Option ℕ
  pub prompt_n : Option ℕ
  pub prompt_ms : Option Real
  pub predicted_per_second : Option Real
  pub draft_n : Option ℕ
  pub draft_n_accepted : Option ℕ

-- A chunk that is an object. `usage` and `timings` are none where they are missing or empty.
pub record Chunk (Real : Type 0) : Type 0 where
  pub failed : Option (List ℕ)
  pub usage : Option ServerUsage
  pub timings : Option (Timings Real)
  pub choices : List Choice

abbrev pub Tools : Type 0
Tools = List (ℕ × ToolCall)

pub record Reply (Real : Type 0) : Type 0 where
  pub think : List (List ℕ)
  pub speech : List (List ℕ)
  pub tools : Tools
  pub finish_reason : String
  pub usage : ServerUsage
  pub timings : Timings Real
  pub first_token_t : Option Real
  pub first_content_t : Option Real

pub record Usage (Real : Type 0) : Type 0 where
  pub server : ServerUsage
  pub timed : Timings Real

pub record Message : Type 0 where
  pub content : List ℕ
  pub reasoning_content : Option (List ℕ)
  pub tool_calls : List ToolCall

pub record End (Real : Type 0) : Type 0 where
  pub finish_reason : String
  pub usage : Usage Real
  pub assistant_message : Message
  pub ttft_ms : Option Real
  pub dropped_tool_calls : ℕ
  pub think_capped : Bool

pub data Event (Real : Type 0) : Type 0 where
  think_delta : List ℕ → Event Real
  speech_delta : List ℕ → Event Real
  tool_calls_event : List ToolCall → Event Real
  end_event : End Real → Event Real
