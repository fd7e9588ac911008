-- ===== src/Harness/TurnPolicy.antt =====
-- src/dollos/harness/turn_policy.py: what kind of turn a batch of perceptions is, what a turn of
-- that kind may run, and the fixed list of tools the model is shown.
-- Every extra of `policies` has a row in the tool matrix, so the KeyError of `TOOL_MATRIX[e.tool]`
-- never happens; a registry name without a row makes `offered_tools` raise, here `none`.
pub mod Limits
pub mod Offered
pub mod Moments
use mathlib.Core.Option
use doll_os.Prelude.{
  ℕ, String, Bool, true, false, ◌&&◌, Option, none, some, List, [], ◌∷◌, ◌++◌, ◌==◌, eqb,
  if◌then◌else◌, keep, any, all, member,
}
use doll_os.Prelude.Dict.{Dict, get}
use doll_os.Perception.{Perception}
use doll_os.Harness.Permissions.{
  Principal, owner_row, origin_tier, trust_order, allows, tool_matrix, names_allowing, tools_for,
}

pub data TurnKind : Type 0 where
  conversation reflection diary agenda pulse safe_mode worker keeper : TurnKind

pub data Condition : Type 0 where
  self_profile evolution owner_present : Condition

-- `when=None` is the empty list of conditions.
pub record Extra : Type 0 where
  pub tool : String
  pub when : List Condition

pub data KindTools : Type 0 where
  all_tools : KindTools
  only : List String → KindTools

pub data FailureRule : Type 0 where
  safe_mode_rule stuck_tool : FailureRule

pub record TurnPolicy : Type 0 where
  pub speaks : Bool
  pub kind_tools : KindTools
  pub extra_tools : List Extra
  pub extra_blocks : List String
  pub doll_transcript : Bool
  pub max_passes : ℕ
  pub must_report : Bool
  pub failure_rule : FailureRule
  pub mcp_tools : Bool

abbrev pub max_sync_refeed_passes : ℕ
max_sync_refeed_passes = 8

abbrev pub max_cascade_passes : ℕ
max_cascade_passes = 16

-- The defaults of the dataclass.
abbrev pub plain : Bool → KindTools → TurnPolicy
plain speaks tools = record {
  speaks = speaks;
  kind_tools = tools;
  extra_tools = [];
  extra_blocks = [];
  doll_transcript = true;
  max_passes = max_sync_refeed_passes;
  must_report = false;
  failure_rule = safe_mode_rule;
  mcp_tools = false;
}

abbrev pub extra : String → List Condition → Extra
extra tool when = record { tool = tool; when = when }

abbrev pub reflection_extras : List Extra
reflection_extras =
    extra "NoteToolLesson" []
    ∷ extra "PinSelf" (self_profile ∷ [])
    ∷ extra "SelfRevision" (evolution ∷ [])
    ∷ extra "LearnName" []
    ∷ []

abbrev pub sub_tools : List String
sub_tools =
    "Shell" ∷ "NoteMemory" ∷ "Recall" ∷ "InvokeSkill" ∷ "Report" ∷ "ReadToolOutput" ∷ "SetFocus"
    ∷ "OpenLoop" ∷ "CloseLoop" ∷ []

abbrev pub keeper_tools : List String
keeper_tools = "Report" ∷ "Scratchpad" ∷ []

abbrev pub agent : List String → TurnPolicy
agent tools = record (plain false (only tools)) {
  max_passes = max_cascade_passes;
  must_report = true;
  failure_rule = stuck_tool;
}

-- `POLICIES[kind]`
unfoldable pub policies : TurnKind → TurnPolicy
policies conversation = record (plain true all_tools) {
  extra_tools = extra "LearnName" [] ∷ extra "PinSelf" (self_profile ∷ owner_present ∷ []) ∷ [];
  mcp_tools = true;
}
policies reflection = record (plain true all_tools) {
  extra_tools = reflection_extras;
  extra_blocks = "tool_outcomes" ∷ "evolution_candidate" ∷ [];
}
policies diary = record (plain false (only ("WriteDiary" ∷ "Recall" ∷ []))) {
  extra_blocks = "today_log" ∷ [];
  doll_transcript = false;
}
policies agenda = plain false (only ("Recall" ∷ "AdvanceGoal" ∷ "CloseLoop" ∷ "MoodTool" ∷ []))
policies pulse = record (plain true (only ("Recall" ∷ "NoteMemory" ∷ "MoodTool" ∷ []))) {
  extra_blocks = "body_signal" ∷ [];
}
policies safe_mode = plain true (only ("Recall" ∷ "ReadToolOutput" ∷ []))
policies worker = agent sub_tools
policies keeper = agent keeper_tools

abbrev pub kinds : List TurnKind
kinds = conversation ∷ reflection ∷ diary ∷ agenda ∷ pulse ∷ safe_mode ∷ worker ∷ keeper ∷ []

-- `_pure`: `bool(perceptions) and all(p.kind == kind for p in perceptions)`
unfoldable pub pure : List Perception → String → Bool
pure [] kind = false
pure (p ∷ ps) kind = all (λ q. q.kind == kind) (p ∷ ps)

unfoldable pub moment_of : List Perception → TurnKind
moment_of ps =
    if any (λ p. p.kind == "ReflectionMoment") ps
    then reflection
    else if pure ps "DiaryMoment"
    then diary
    else if pure ps "AgendaMoment"
    then agenda
    else if pure ps "PulseMoment"
    then pulse
    else conversation

unfoldable pub effective_kind : TurnKind → Bool → TurnKind
effective_kind moment safe = if safe then safe_mode else moment

unfoldable pub kind_of : List Perception → Bool → TurnKind
unfolding moment_of effective_kind
kind_of ps safe = effective_kind (moment_of ps) safe

-- The two config switches that an extra's conditions read.
pub record Switches : Type 0 where
  pub self_profile_on : Bool
  pub evolution_on : Bool

unfoldable pub condition_holds : Principal → Switches → Condition → Bool
condition_holds p s self_profile = s.self_profile_on
condition_holds p s evolution = s.evolution_on
condition_holds p s owner_present = allows owner_row p

-- `_holds`
unfoldable pub holds : Principal → Switches → Extra → Bool
unfolding condition_holds
holds p s e = all (condition_holds p s) e.when

-- `TOOL_MATRIX[name]`, where the name has a row.
unfoldable pub row : String → List Principal
row name = Option.get_or (get tool_matrix name) []

-- `{e.tool for e in extras if _holds(e) and principal in TOOL_MATRIX[e.tool]}`
unfoldable pub extra_names : Principal → Switches → List Extra → List String
unfolding holds row
extra_names p s [] = []
extra_names p s (e ∷ es) =
    if holds p s e && allows (row e.tool) p then e.tool ∷ extra_names p s es else extra_names p s es

abbrev pub kind_allows : KindTools → String → Bool
kind_allows all_tools n = true
kind_allows (only names) n = member n names

unfoldable pub bound_tools :
    TurnKind → Principal → List String → Switches → Dict (List Principal) → List String
unfolding policies
bound_tools kind p registry s mcp =
    keep (λ n. kind_allows (policies kind).kind_tools n && member n (tools_for p)) registry
    ++ extra_names p s (policies kind).extra_tools
    ++ (if (policies kind).mcp_tools then names_allowing mcp p else [])

unfoldable pub same_tier : Principal → List Principal
same_tier p = keep (λ q. origin_tier q == origin_tier p) trust_order

-- `same_tier & row`
abbrev pub meets : List Principal → List Principal → Bool
meets tier row = any (allows row) tier

-- `{n for n in registry if same_tier & TOOL_MATRIX[n]}`
unfoldable pub builtin_names : List Principal → List String → Option (List String)
builtin_names tier [] = some []
builtin_names tier (n ∷ ns) = elim (get tool_matrix n) [
  | none ↦ none
  | some row ↦
      Option.map (λ names. if meets tier row then n ∷ names else names) (builtin_names tier ns)
]

abbrev pub tier_extras : List Principal → Switches → List Extra → List String
tier_extras [] s es = []
tier_extras (q ∷ tier) s es = extra_names q s es ++ tier_extras tier s es

abbrev pub all_extras : List TurnKind → List Principal → Switches → List String
all_extras [] tier s = []
all_extras (k ∷ ks) tier s = tier_extras tier s (policies k).extra_tools ++ all_extras ks tier s

-- `{n for n, row in mcp.items() if same_tier & row}`
unfoldable pub mcp_names : List Principal → Dict (List Principal) → List String
mcp_names tier [] = []
mcp_names tier ((n, row) ∷ rest) =
    if meets tier row then n ∷ mcp_names tier rest else mcp_names tier rest

unfoldable pub offered_tools :
    Principal → List String → Switches → Dict (List Principal) → Option (List String)
unfolding builtin_names mcp_names
offered_tools p registry s mcp =
    Option.map
      (λ builtin. builtin ++ all_extras kinds (same_tier p) s ++ mcp_names (same_tier p) mcp)
      (builtin_names (same_tier p) registry)
