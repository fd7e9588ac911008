-- ===== src/Harness/Permissions.antt =====
-- src/dollos/harness/permissions.py: the principal of a turn and the tool permission table.
pub mod Trust
use doll_os.Prelude.{
  ℕ, String, Bool, true, false, ◌&&◌, ◌||◌, not, Option, none, some, List, [], ◌∷◌, ◌++◌, ◌==◌, ltb,
  eqb, if◌then◌else◌, keep, cons_some,
}
use doll_os.Prelude.Dict.{Dict, get}
use doll_os.Perception.{Perception, flag}

pub data Principal : Type 0 where
  owner owner_dm internal external_public : Principal

-- Highest trust first.
abbrev pub trust_order : List Principal
trust_order = owner ∷ owner_dm ∷ internal ∷ external_public ∷ []

-- `_RANK`: the position in the trust order.
abbrev pub rank : Principal → ℕ
rank owner = 0
rank owner_dm = 1
rank internal = 2
rank external_public = 3

abbrev pub origin_tier : Principal → String
origin_tier owner = "internal"
origin_tier owner_dm = "external_dm"
origin_tier internal = "internal"
origin_tier external_public = "external_public"

unfoldable pub author_principal : Perception → Option Principal
author_principal p =
    if p.kind == "ChannelMessage"
    then (if flag p.data_ "author_is_owner" && flag p.data_ "is_dm"
        then some owner_dm
        else some external_public)
    else if p.kind == "UserSpoke"
    then some owner
    else none

-- `[a for a in map(_author_principal, perceptions) if a is not None]`
unfoldable pub authored : List Perception → List Principal
authored [] = []
authored (p ∷ ps) = cons_some (author_principal p) (authored ps)

-- `max(best, *rest, key=_RANK)`: the first of the greatest.
unfoldable pub max_rank : Principal → List Principal → Principal
max_rank best [] = best
max_rank best (a ∷ rest) = max_rank (if ltb (rank best) (rank a) then a else best) rest

unfoldable pub principal_of : List Perception → Principal
principal_of ps = elim (authored ps) [ [] ↦ internal | a ∷ rest ↦ max_rank a rest ]

-- `principal in row`
abbrev pub allows : List Principal → Principal → Bool
allows [] p = false
allows (q ∷ row) p = eqb (rank q) (rank p) || allows row p

abbrev pub everyone : List Principal
everyone = trust_order

abbrev pub owner_row : List Principal
owner_row = owner ∷ owner_dm ∷ []

abbrev pub trusted_row : List Principal
trusted_row = owner ∷ owner_dm ∷ internal ∷ []

unfoldable pub tool_matrix : Dict (List Principal)
tool_matrix =
    ("Recall", everyone)
    ∷ ("NoteMemory", everyone)
    ∷ ("WriteDiary", everyone)
    ∷ ("PinSelf", trusted_row)
    ∷ ("LearnName", owner_row)
    ∷ ("WriteSchedule", trusted_row)
    ∷ ("Shell", trusted_row)
    ∷ ("InvokeSkill", trusted_row)
    ∷ ("SpawnWorkflow", trusted_row)
    ∷ ("ReadToolOutput", trusted_row)
    ∷ ("Scratchpad", trusted_row)
    ∷ ("SetFocus", trusted_row)
    ∷ ("OpenLoop", trusted_row)
    ∷ ("CloseLoop", trusted_row)
    ∷ ("MoodTool", trusted_row)
    ∷ ("PursueGoal", trusted_row)
    ∷ ("AdvanceGoal", trusted_row)
    ∷ ("NoteToolLesson", trusted_row)
    ∷ ("SelfRevision", trusted_row)
    ∷ ("Report", trusted_row)
    ∷ ("EditOwnerProfile", trusted_row)
    ∷ []

-- `{n for n, allowed in matrix.items() if principal in allowed}`
abbrev pub names_allowing : Dict (List Principal) → Principal → List String
names_allowing [] p = []
names_allowing ((n, row) ∷ rest) p =
    if allows row p then n ∷ names_allowing rest p else names_allowing rest p

unfoldable pub tools_for : Principal → List String
unfolding tool_matrix
tools_for = names_allowing tool_matrix

unfoldable pub tainted_tools : List String
unfolding tools_for
tainted_tools = keep (λ n. not (n == "WriteDiary")) (tools_for external_public) ++ "Report" ∷ []
