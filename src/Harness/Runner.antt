-- ===== src/Harness/Runner.antt =====
-- src/dollos/harness/runner.py: the counters of a turn's failures, and the loop of passes.
-- What the model and the tools do in a pass is the input `Pass`; a turn reads one for each index.
-- The reasons' wording, the hooks and the reply's sentences are left out.
pub mod Strikes
pub mod Ends
mod Examples
use doll_os.Prelude.{
  ℕ, zero, suc, ◌+◌, String, Bool, true, false, not, ◌&&◌, Option, none, some, List, [], ◌∷◌, ◌++◌,
  ◌==◌, leb, if◌then◌else◌, member, map,
}
use mathlib.Core.Option
use doll_os.Prelude.Dict.{Dict, get, put}
use doll_os.Harness.TurnPolicy.{TurnPolicy, FailureRule, safe_mode_rule, stuck_tool}
use doll_os.Harness.Executor.{ToolResult}

abbrev pub unbound_reject_limit : ℕ
unbound_reject_limit = 3

abbrev pub safe_mode_fail_threshold : ℕ
safe_mode_fail_threshold = 3

pub record Failures : Type 0 where
  pub rule : FailureRule
  pub per_tool : Dict ℕ
  pub last_failed : Option String
  pub streak : ℕ
  pub unbound : Dict ℕ

abbrev pub fresh : FailureRule → Failures
fresh rule = record { rule = rule; per_tool = []; last_failed = none; streak = 0; unbound = [] }

-- `d.get(name, default)`
abbrev pub get_count : Dict ℕ → String → ℕ → ℕ
get_count d name default = Option.get_or (get d name) default

abbrev pub is_last : Option String → String → Bool
is_last none name = false
is_last (some n) name = n == name

-- A call of a tool that failed.
unfoldable pub strike : String → Failures → Failures
strike name f = elim f.rule [
  | stuck_tool ↦ record f { per_tool = put f.per_tool name (get_count f.per_tool name 0 + 1) }
  | safe_mode_rule ↦
      if is_last f.last_failed name
      then record f {
        streak = f.streak + 1;
        per_tool = put f.per_tool name (get_count f.per_tool name 1 + 1);
      }
      else record f { streak = f.streak + 1; last_failed = some name; per_tool = (name, 1) ∷ [] }
]

unfoldable pub succeed : Failures → Failures
succeed f = record f { per_tool = []; last_failed = none; streak = 0 }

unfoldable pub refuse : String → Failures → Failures
refuse name f = record f { unbound = put f.unbound name (get_count f.unbound name 0 + 1) }

-- One turn of the loop of `_Failures.add`; `refused` are the names already refused in this pass.
unfoldable pub add_all : List String → List ToolResult → Failures → Failures
add_all refused [] f = f
add_all refused (r ∷ rs) f =
    let again = add_all refused rs f in
    let first = add_all (r.tool_name ∷ refused) rs (refuse r.tool_name f) in
    let good = add_all refused rs (succeed f) in
    let bad = add_all refused rs (strike r.tool_name f) in
    if r.refused
    then (if member r.tool_name refused then again else first)
    else if r.success
    then good
    else bad

unfoldable pub add : List ToolResult → Failures → Failures
unfolding add_all strike succeed refuse
add rs f = add_all [] rs f

-- `next((n for n, c in d.items() if c >= limit), None)`
unfoldable pub first_at : ℕ → Dict ℕ → Option String
first_at limit [] = none
first_at limit ((n, c) ∷ d) = if leb limit c then some n else first_at limit d

unfoldable pub stuck : Failures → Option String
unfolding first_at
stuck f = first_at 3 f.per_tool

pub data SafeModeReason : Type 0 where
  same_tool : String → SafeModeReason
  consecutive : ℕ → SafeModeReason

unfoldable pub safe_mode_reason : Failures → Option SafeModeReason
unfolding stuck
safe_mode_reason f = elim (stuck f) [
  | some n ↦ some (same_tool n)
  | none ↦ if leb safe_mode_fail_threshold f.streak then some (consecutive f.streak) else none
]

unfoldable pub refused : Failures → Option String
unfolding first_at
refused f = first_at unbound_reject_limit f.unbound

pub data Outcome : Type 0 where
  done cut failed brain_down : Outcome

pub data EndedBy : Type 0 where
  no_tool_calls report cancel max_tokens safe_mode stuck_on unbound_limit max_passes model_error :
      EndedBy

pub data ErrorKind : Type 0 where
  server transport : ErrorKind

abbrev pub is_some : {A : Type 0} → Option A → Bool
is_some none = false
is_some (some a) = true

module _ (Message Report : Type 0) where
  pub record ToolOutcome : Type 0 where
    pub result : ToolResult
    pub message : Message

  -- What one pass leaves, the interrupt before it and the agent's report after it included.
  pub record Pass : Type 0 where
    pub cancelled_before : Bool
    pub error : Option ErrorKind
    pub cancelled : Bool
    pub reply : Option Message
    pub outcomes : List ToolOutcome
    pub cut_by_length : Bool
    pub agent_report : Option Report

  pub record TurnResult : Type 0 where
    pub outcome : Outcome
    pub ended_by : EndedBy
    pub messages : List Message
    pub tool_outcomes : List ToolOutcome
    pub reported : Option Report
    pub passes : ℕ

  abbrev pub finish : Outcome → EndedBy → TurnResult → TurnResult
  finish o e r = record r { outcome = o; ended_by = e }

  -- `if p.reply is not None: messages.append(p.reply)`
  abbrev pub as_list : Option Message → List Message
  as_list none = []
  as_list (some m) = m ∷ []

  abbrev pub answers : List ToolOutcome → List Message
  answers = map (λ o. o.message)

  abbrev pub results : List ToolOutcome → List ToolResult
  results = map (λ o. o.result)

  -- What a pass puts into the thread.
  unfoldable pub contribution : Pass → List Message
  contribution p = elim p.error [
    | some server ↦ []
    | some transport ↦ as_list p.reply
    | none ↦ as_list p.reply ++ answers p.outcomes
  ]

  -- The rule that ends the turn behind a pass whose calls ran, if one does.
  unfoldable pub tripped : TurnPolicy → Failures → Option EndedBy
  unfolding safe_mode_reason stuck refused
  tripped policy f = elim policy.failure_rule [
    | safe_mode_rule ↦
        if is_some (safe_mode_reason f)
        then some safe_mode
        else if is_some (refused f)
        then some unbound_limit
        else none
    | stuck_tool ↦
        if is_some (stuck f)
        then some stuck_on
        else if is_some (refused f)
        then some unbound_limit
        else none
  ]

  -- What follows a pass that was not cut short: the turn's end, or the failures to go on with.
  pub data Next : Type 0 where
    stop : Outcome → EndedBy → Option Report → Next
    go_on : Failures → Next

  abbrev pub no_calls : List ToolOutcome → Bool
  no_calls [] = true
  no_calls (o ∷ os) = false

  unfoldable pub after_pass : TurnPolicy → Pass → Failures → Next
  after_pass policy p f =
      if p.cut_by_length
      then stop cut max_tokens none
      else if policy.must_report && is_some p.agent_report
      then stop done report p.agent_report
      else if no_calls p.outcomes
      then stop done no_tool_calls none
      else let f' = add (results p.outcomes) f in
        elim (tripped policy f') [ some by ↦ stop failed by none | none ↦ go_on f' ]

  -- The thread, the outcomes and the count behind a pass.
  unfoldable pub took : Pass → TurnResult → TurnResult
  took p r = record r {
    messages = r.messages ++ contribution p;
    tool_outcomes = r.tool_outcomes ++ (elim p.error [ some e ↦ [] | none ↦ p.outcomes ]);
    passes = suc r.passes;
  }

  abbrev pub follow : (Failures → TurnResult) → TurnResult → Next → TurnResult
  follow rest r (stop o by said) = finish o by (record r { reported = said })
  follow rest r (go_on f) = rest f

  -- `for index in range(policy.max_passes)`: the first argument is how many passes are left.
  unfoldable pub run_passes : ℕ → TurnPolicy → (ℕ → Pass) → Failures → TurnResult → TurnResult
  run_passes zero policy env f r = finish failed max_passes r
  run_passes (suc left) policy env f r =
      let p = env r.passes in
      let r' = took p r in
      if p.cancelled_before then finish cut cancel r else elim p.error [
        | some e ↦ finish brain_down model_error r'
        | none ↦
            if p.cancelled
            then finish cut cancel r'
            else follow (λ f'. run_passes left policy env f' r') r' (after_pass policy p f)
      ]

  -- The result that a turn starts from.
  abbrev pub begin : List Message → TurnResult
  begin messages = record {
    outcome = done;
    ended_by = no_tool_calls;
    messages = messages;
    tool_outcomes = [];
    reported = none;
    passes = 0;
  }

  unfoldable pub run_turn : TurnPolicy → (ℕ → Pass) → List Message → TurnResult
  unfolding run_passes took after_pass tripped contribution
  run_turn policy env messages =
      run_passes policy.max_passes policy env (fresh policy.failure_rule) (begin messages)
