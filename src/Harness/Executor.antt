-- ===== src/Harness/Executor.antt =====
-- src/dollos/harness/executor.py: one tool call against a turn's binding, and the taint that a call
-- for untrusted content leaves on the turn.
-- A message to the model is kept as data, not as its wording. The tools themselves (validation,
-- `run`, `taints`) are the parameter `Tools`; what a tool does to the rest of the context is `S`.
-- The argument summary of the log record is left out.
pub mod Calls
pub mod Narrowing
use doll_os.Prelude.{
  String, Bool, true, false, not, ◌&&◌, Option, none, some, List, [], ◌∷◌, ◌++◌, member, map, eqb,
  if◌then◌else◌,
}
use doll_os.Prelude.Dict.{Dict, get, has, restrict}
use doll_os.Harness.Permissions.{
  Principal, owner, owner_dm, internal, external_public, rank, tainted_tools,
}
use doll_os.Harness.TurnPolicy.{
  TurnKind, conversation, reflection, diary, agenda, pulse, safe_mode, worker, keeper,
}

pub data Decision : Type 0 where
  allow deny unbound : Decision

-- Why a turn is tainted.
pub data Taint : Type 0 where
  turn page : Taint

-- The turn as named in the refusal of an unbound tool.
pub data Label : Type 0 where
  by_page after_reading in_safe_mode stranger with_owner normal : Label
  of_kind : TurnKind → Label

pub data Detail : Type 0 where
  text : String → Detail
  unknown_tool : String → List String → Detail
  bad_arguments : String → String → Detail
  runtime_error : String → Detail
  not_available : String → Label → List String → Detail

pub record ToolResult : Type 0 where
  pub tool_name : String
  pub success : Bool
  pub detail : Detail
  pub refused : Bool

-- `ToolResult.status`
unfoldable pub status : ToolResult → String
status r = if r.refused then "rejected_unbound" else if r.success then "ok" else "failed"

pub data LogRecord : Type 0 where
  tool_call : Principal → TurnKind → String → Decision → Bool → LogRecord
  turn_tainted : Principal → TurnKind → String → LogRecord

-- `MindCtx`, as far as the executor reads and writes it.
pub record Ctx (S : Type 0) : Type 0 where
  pub tainted : Bool
  pub tainted_by_page : Bool
  pub rest : S
  pub log : List LogRecord

-- What `tool.run(ctx)` comes back with.
pub data Returned : Type 0 where
  raised : String → Returned
  nothing : Returned
  said : String → Returned
  answered : ToolResult → Returned

-- The tool classes: `model_validate`, `run` and `taints`.
pub record Tools (S : Type 0) : Type 1 where
  pub Tool : Type 0
  pub Arguments : Type 0
  pub invalid : Tool → Arguments → Option String
  pub run_tool : Tool → Arguments → Ctx S → Returned × S
  pub taints : Tool → Arguments → Bool

unfoldable pub turn_label : TurnKind → Principal → Option Taint → Label
turn_label kind p (some page) = by_page
turn_label kind p (some turn) = after_reading
turn_label safe_mode p none = in_safe_mode
turn_label kind external_public none = stranger
turn_label conversation owner none = with_owner
turn_label conversation owner_dm none = with_owner
turn_label conversation internal none = normal
turn_label kind p none = of_kind kind

abbrev pub names : {V : Type 0} → Dict V → List String
names d = map (λ e. e.0) d

module _ {S : Type 0} (tools : Tools S) where
  open tools use {Tool, Arguments, invalid, run_tool, taints}

  pub record Executor : Type 0 where
    pub offered : Dict Tool
    pub bound : Dict Tool
    pub principal : Principal
    pub kind : TurnKind

  abbrev pub failure : String → Detail → ToolResult
  failure name d = record { tool_name = name; success = false; detail = d; refused = false }

  -- The part of `dispatch_one` after `run`.
  unfoldable pub to_result : String → Returned → Option ToolResult
  to_result name (raised e) = some (failure name (runtime_error e))
  to_result name nothing = none
  to_result name (said s) =
      some (record { tool_name = name; success = true; detail = text s; refused = false })
  to_result name (answered r) = some r

  unfoldable pub dispatch_one : String → Arguments → Ctx S → Dict Tool → Option ToolResult × S
  unfolding to_result
  dispatch_one name args ctx registry = elim (get registry name) [
    | none ↦ (some (failure name (unknown_tool name (names registry))), ctx.rest)
    | some tool ↦ elim (invalid tool args) [
      | some e ↦ (some (failure name (bad_arguments name e)), ctx.rest)
      | none ↦ let (r, s) = run_tool tool args ctx in (to_result name r, s)
    ]
  ]

  -- `_taint`
  unfoldable pub taint_of : Executor → Ctx S → Option Taint
  taint_of e ctx =
      if not ctx.tainted
      then none
      else if eqb (rank e.principal) (rank external_public)
      then none
      else if ctx.tainted_by_page
      then some page
      else some turn

  unfoldable pub effective_bound : Executor → Ctx S → Dict Tool
  effective_bound e ctx = elim (taint_of e ctx) [
    | none ↦ e.bound
    | some t ↦ restrict (λ n. member n tainted_tools) e.bound
  ]

  unfoldable pub decide : Executor → Ctx S → String → Decision
  decide e ctx name =
      if not (has e.offered name)
      then deny
      else if not (has (effective_bound e ctx) name)
      then unbound
      else allow

  abbrev pub write_log : LogRecord → Ctx S → Ctx S
  write_log r ctx = record ctx { log = ctx.log ++ r ∷ [] }

  unfoldable pub call_taints : Option Tool → Arguments → Bool
  call_taints none args = false
  call_taints (some tool) args = taints tool args

  -- `_maybe_taint`
  unfoldable pub maybe_taint : Executor → String → Arguments → Ctx S → Ctx S
  unfolding call_taints
  maybe_taint e name args ctx =
      if eqb (rank e.principal) (rank external_public)
      then ctx
      else if ctx.tainted
      then ctx
      else if not (call_taints (get e.bound name) args)
      then ctx
      else write_log (turn_tainted e.principal e.kind name) (record ctx { tainted = true })

  abbrev pub is_tainted : Option Taint → Bool
  is_tainted none = false
  is_tainted (some t) = true

  -- The refusal of an offered tool that this turn may not run.
  unfoldable pub refusal : Executor → Ctx S → String → ToolResult
  unfolding turn_label
  refusal e ctx name = record {
    tool_name = name;
    success = false;
    detail =
        not_available name (turn_label e.kind e.principal (taint_of e ctx))
          (names (effective_bound e ctx));
    refused = true;
  }

  -- The part of `run` behind the log record: the refusal, or the dispatch and then the taint.
  unfoldable pub carry_out :
      Decision → Executor → String → Arguments → Ctx S → Option ToolResult × Ctx S
  carry_out unbound e name args ctx = (some (refusal e ctx name), ctx)
  carry_out deny e name args ctx =
      let (r, s) = dispatch_one name args ctx (effective_bound e ctx) in
      (r, record ctx { rest = s })
  carry_out allow e name args ctx =
      let (r, s) = dispatch_one name args ctx (effective_bound e ctx) in
      (r, maybe_taint e name args (record ctx { rest = s }))

  unfoldable pub run : Executor → String → Arguments → Ctx S → Option ToolResult × Ctx S
  unfolding carry_out
  run e name args ctx =
      let decision = decide e ctx name in
      carry_out decision e name args
        (write_log (tool_call e.principal e.kind name decision (is_tainted (taint_of e ctx))) ctx)

  -- A turn's calls, one after the other.
  unfoldable pub run_all : Executor → List (String × Arguments) → Ctx S → Ctx S
  run_all e [] ctx = ctx
  run_all e ((name, args) ∷ calls) ctx = run_all e calls (run e name args ctx).1
