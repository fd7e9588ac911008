-- ===== src/Harness/ToolCalls.antt =====
-- `run_tool_calls` of src/dollos/harness/runner.py: the tool calls of one reply and the messages that
-- answer them. `json.loads`, the dispatch and the interrupt handle are the parameter `World`; a text
-- is its code points, and `note` is the line that a cut message ends in.
pub mod Answers
mod Examples
use doll_os.Prelude.{
  ℕ, String, Bool, true, false, not, ◌&&◌, Option, none, some, List, [], ◌∷◌, ◌++◌, ltb, length,
  take, member, map, if◌then◌else◌,
}

abbrev pub tool_message_max_chars : ℕ
tool_message_max_chars = 8000

abbrev pub uncut_tools : List String
uncut_tools = "InvokeSkill" ∷ []

pub record ToolCall : Type 0 where
  pub id : String
  pub name : String
  pub arguments : List ℕ

pub record CallResult : Type 0 where
  pub tool_name : String
  pub success : Bool
  pub detail : List ℕ
  pub refused : Bool

pub record ToolMessage : Type 0 where
  pub tool_call_id : String
  pub content : List ℕ

pub record CallOutcome : Type 0 where
  pub call : ToolCall
  pub result : CallResult
  pub message : ToolMessage

-- What `json.loads` makes of the arguments: an object, or the error text.
pub data Parsed (Args : Type 0) : Type 0 where
  object : Args → Parsed Args
  bad : List ℕ → Parsed Args

-- `stop` reads the interrupt handle; the state holds whatever changes while a call runs.
pub record World (S : Type 0) : Type 1 where
  pub Args : Type 0
  pub parse : List ℕ → Parsed Args
  pub dispatch : String → Args → S → Option CallResult × S
  pub stop : S → Bool
  pub note : ℕ → List ℕ

-- `NOT_RUN` and "ok", as code points.
abbrev pub not_run_text : List ℕ
not_run_text =
    b'n' ∷ b'o' ∷ b't' ∷ b' ' ∷ b'r' ∷ b'u' ∷ b'n' ∷ b':' ∷ b' ' ∷ b't' ∷ b'u' ∷ b'r' ∷ b'n' ∷ b' '
    ∷ b'i' ∷ b'n' ∷ b't' ∷ b'e' ∷ b'r' ∷ b'r' ∷ b'u' ∷ b'p' ∷ b't' ∷ b'e' ∷ b'd' ∷ []

abbrev pub ok_text : List ℕ
ok_text = b'o' ∷ b'k' ∷ []

unfoldable pub not_run : ToolCall → CallOutcome
not_run c = record {
  call = c;
  result = record { tool_name = c.name; success = false; detail = not_run_text; refused = false };
  message = record { tool_call_id = c.id; content = not_run_text };
}

abbrev pub or_ok : List ℕ → List ℕ
or_ok [] = ok_text
or_ok (c ∷ s) = c ∷ s

module _ {S : Type 0} (world : World S) where
  open world use {Args, parse, dispatch, stop, note}

  abbrev pub or_done : ToolCall → Option CallResult → CallResult
  or_done c none = record { tool_name = c.name; success = true; detail = ok_text; refused = false }
  or_done c (some r) = r

  unfoldable pub run_one : ToolCall → S → CallResult × S
  run_one c s = elim (parse c.arguments) [
    | bad error ↦
        (record { tool_name = c.name; success = false; detail = error; refused = false }, s)
    | object args ↦ let r = dispatch c.name args s in (or_done c r.0, r.1)
  ]

  unfoldable pub message_text : String → List ℕ → List ℕ
  message_text name detail =
      let text = or_ok detail in
      if ltb tool_message_max_chars (length text) && not (member name uncut_tools)
      then take tool_message_max_chars text ++ note (length text)
      else text

  unfoldable pub run_tool_calls : List ToolCall → S → List CallOutcome × S
  unfolding not_run run_one message_text
  run_tool_calls [] s = ([], s)
  run_tool_calls (c ∷ calls) s =
      let one = run_one c s in
      let stopped = run_tool_calls calls s in
      let rest = run_tool_calls calls one.1 in
      if stop s then (not_run c ∷ stopped.0, stopped.1) else (
        record {
          call = c;
          result = one.0;
          message = record { tool_call_id = c.id; content = message_text c.name one.0.detail };
        }
            ∷ rest.0,
        rest.1,
      )
