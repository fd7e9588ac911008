-- ===== src/Llm/Feed.antt =====
-- The methods of `_Reply` in src/dollos/llm/chat_completions.py: `feed` and `finish`. `feed` reads the
-- clock once for each chunk.
use doll_os.Prelude.Floats.{Floats}
use doll_os.Prelude.Texts.{no_text}
use doll_os.Prelude.{
  ℕ, ◌+◌, String, Bool, true, false, not, ◌||◌, Option, none, some, List, [], ◌∷◌, ◌++◌, ltb, eqb,
  ◌==◌, if◌then◌else◌, length, map,
}
use doll_os.Harness.ToolCalls.{ToolCall}
use doll_os.Llm.{
  Fragment, Choice, ServerUsage, Timings, Chunk, Tools, Reply, Usage, End, Event, think_delta,
  speech_delta, Ending, read_whole, bad_piece, bad_choice,
}

abbrev pub no_call : ToolCall
no_call = record { id = ""; name = ""; arguments = [] }

-- The first id and the first name stay; the arguments grow.
unfoldable pub extend : Fragment → ToolCall → ToolCall
extend f c = record {
  id = if c.id == "" then f.id else c.id;
  name = if c.name == "" then f.name else c.name;
  arguments = c.arguments ++ f.arguments;
}

unfoldable pub add_fragment : Tools → Fragment → Tools
unfolding extend
add_fragment [] f = (f.index, extend f no_call) ∷ []
add_fragment ((i, c) ∷ tools) f =
    if eqb i f.index then (i, extend f c) ∷ tools else (i, c) ∷ add_fragment tools f

unfoldable pub add_fragments : Tools → List Fragment → Tools
unfolding add_fragment
add_fragments tools [] = tools
add_fragments tools (f ∷ fs) = add_fragments (add_fragment tools f) fs

unfoldable pub concat : List (List ℕ) → List ℕ
concat [] = []
concat (s ∷ ss) = s ++ concat ss

-- `if text: xs.append(text)`
unfoldable pub append_given : List (List ℕ) → List ℕ → List (List ℕ)
append_given xs [] = xs
append_given xs (c ∷ s) = xs ++ (c ∷ s) ∷ []

abbrev pub or_last {ℓ} : {A : Type ℓ} → Option A → A → A
or_last none a = a
or_last (some b) a = b

-- The time of the first mark.
abbrev pub marked {ℓ} : {A : Type ℓ} → Bool → A → Option A → Option A
marked false now t = t
marked true now none = some now
marked true now (some t) = some t

-- A piece is reached, readable or not.
abbrev pub has_fragments : List Fragment → Ending → Bool
has_fragments [] read_whole = false
has_fragments [] bad_choice = false
has_fragments [] bad_piece = true
has_fragments (f ∷ fs) e = true

abbrev pub is_broken : Ending → Bool
is_broken read_whole = false
is_broken bad_piece = true
is_broken bad_choice = true

-- The source raises at one of the choices.
unfoldable pub raises : List Choice → Bool
raises [] = false
raises (ch ∷ chs) = is_broken ch.ending || raises chs

-- What comes of a chunk: its events, a `ModelError`, or another exception. The events of a chunk at which
-- the source raises are lost, and what it has put into the reply stays.
pub data Fed (Real : Type 0) : Type 0 where
  fed : List (Event Real) → Reply Real → Fed Real
  refused : Fed Real
  crashed : Reply Real → Fed Real

module _ {Real : Type 0} where
  -- What the loop over `choices` does with one of them.
  unfoldable pub feed_choice : Real → Reply Real → Choice → Reply Real
  unfolding add_fragments append_given
  feed_choice now r ch = record {
    think = append_given r.think ch.reasoning_content;
    speech = append_given r.speech ch.content;
    tools = add_fragments r.tools ch.tool_calls;
    finish_reason = if ch.finish_reason == "" then r.finish_reason else ch.finish_reason;
    usage = r.usage;
    timings = r.timings;
    first_token_t = marked (has_fragments ch.tool_calls ch.ending) now (
        marked (not (no_text ch.content)) now
          (marked (not (no_text ch.reasoning_content)) now r.first_token_t));
    first_content_t = marked (not (no_text ch.content)) now r.first_content_t;
  }

  -- The loop over `choices`, up to where it raises.
  unfoldable pub feed_choices : Real → Reply Real → List Choice → Reply Real
  unfolding feed_choice
  feed_choices now r [] = r
  feed_choices now r (ch ∷ chs) =
      let rest = feed_choices now (feed_choice now r ch) chs in
      if is_broken ch.ending then feed_choice now r ch else rest

  abbrev pub thought : List ℕ → List (Event Real)
  thought [] = []
  thought (c ∷ s) = think_delta (c ∷ s) ∷ []

  abbrev pub said : List ℕ → List (Event Real)
  said [] = []
  said (c ∷ s) = speech_delta (c ∷ s) ∷ []

  unfoldable pub events_of : List Choice → List (Event Real)
  events_of [] = []
  events_of (ch ∷ chs) = thought ch.reasoning_content ++ (said ch.content ++ events_of chs)

  unfoldable pub start_chunk : Chunk Real → Reply Real → Reply Real
  start_chunk data_of r = record r {
    usage = or_last data_of.usage r.usage;
    timings = or_last data_of.timings r.timings;
  }

  unfoldable pub feed_unless : Real → Chunk Real → Reply Real → Option (List ℕ) → Fed Real
  unfolding start_chunk feed_choices events_of raises
  feed_unless now data_of r (some message) = refused
  feed_unless now data_of r none =
      let q = feed_choices now (start_chunk data_of r) data_of.choices in
      if raises data_of.choices then crashed q else fed (events_of data_of.choices) q

  unfoldable pub feed : Real → Chunk Real → Reply Real → Fed Real
  unfolding feed_unless
  feed now data_of r = feed_unless now data_of r data_of.failed

abbrev pub no_timings : {Real : Type 0} → Timings Real
no_timings = record {
  cache_n = none;
  prompt_n = none;
  prompt_ms = none;
  predicted_per_second = none;
  draft_n = none;
  draft_n_accepted = none;
}

-- `_Reply()`
abbrev pub new_reply : {Real : Type 0} → Reply Real
new_reply = record {
  think = [];
  speech = [];
  tools = [];
  finish_reason = "";
  usage = record { prompt_tokens = none; completion_tokens = none };
  timings = no_timings;
  first_token_t = none;
  first_content_t = none;
}

-- `sorted(self.tools.items())`: the keys of a dict are distinct, so they alone are compared.
unfoldable pub insert_call : ℕ × ToolCall → Tools → Tools
insert_call e [] = e ∷ []
insert_call (i, c) ((j, d) ∷ tools) =
    if ltb i j then (i, c) ∷ (j, d) ∷ tools else (j, d) ∷ insert_call (i, c) tools

unfoldable pub sorted_calls : Tools → Tools
unfolding insert_call
sorted_calls [] = []
sorted_calls (e ∷ tools) = insert_call e (sorted_calls tools)

-- What becomes of the calls: run them, drop them, or raise.
pub data Settled : Type 0 where
  kept : List ToolCall → Settled
  dropped : ℕ → Settled
  raised : Settled

unfoldable pub settle : List ToolCall → String → Settled
settle [] reason = kept []
settle (c ∷ calls) reason =
    if reason == "length"
    then dropped (length (c ∷ calls))
    else if reason == "tool_calls"
    then kept (c ∷ calls)
    else raised

-- The timings of a capped reply do not add up to the prompt.
unfoldable pub capped : Option ℕ → Option ℕ → Option ℕ → Bool
capped (some c) (some n) (some p) = not (eqb (c + n) p)
capped none n p = false
capped (some c) none p = false
capped (some c) (some n) none = false

unfoldable pub usage_of : {Real : Type 0} → Bool → ServerUsage → Timings Real → Usage Real
usage_of false u t = record { server = u; timed = t }
usage_of true u t = record {
  server = u;
  timed = record t { cache_n = none; prompt_n = none; prompt_ms = none };
}

module _ (floats : Floats) where
  open floats use {Real, number, sub, mul}

  -- `(t - start_t) * 1000.0`
  unfoldable pub ms_since : Real → Option Real → Option Real
  ms_since start none = none
  ms_since start (some t) = some (mul (sub t start) (number 1000))

  unfoldable pub end_of : Real → List ToolCall → ℕ → Reply Real → End Real
  unfolding concat capped usage_of ms_since
  end_of start calls n r =
      let cap_hit = capped r.timings.cache_n r.timings.prompt_n r.usage.prompt_tokens in
      record {
        finish_reason = r.finish_reason;
        usage = usage_of cap_hit r.usage r.timings;
        assistant_message = record {
          content = concat r.speech;
          reasoning_content = elim r.think [ [] ↦ none | s ∷ ss ↦ some (concat (s ∷ ss)) ];
          tool_calls = calls;
        };
        ttft_ms = ms_since start r.first_token_t;
        dropped_tool_calls = n;
        think_capped = cap_hit;
      }

  abbrev pub settled : Real → Reply Real → Settled → Option (List ToolCall × End Real)
  settled start r (kept calls) = some (calls, end_of start calls 0 r)
  settled start r (dropped n) = some ([], end_of start [] n r)
  settled start r raised = none

  -- The calls and the end, or none where the source raises.
  unfoldable pub finish : Real → Reply Real → Option (List ToolCall × End Real)
  unfolding sorted_calls settle end_of
  finish start r =
      settled start r
        (settle (map (λ (e : ℕ × ToolCall). e.1) (sorted_calls r.tools)) r.finish_reason)
