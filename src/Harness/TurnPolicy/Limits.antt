-- ===== src/Harness/TurnPolicy/Limits.antt =====
-- The limits of what a turn is bound to, whatever the registry and the switches are.
use mathlib.Core.Option
use doll_os.Prelude.{
  String, ◌≡◌, ◌≢◌, ◌⊎◌, inl, inr, refl, Bool, true, false, ◌&&◌, List, [], ◌∷◌, ◌++◌, arith,
  eq_iff, if◌then◌else◌, keep, member, member-append, member-keep,
}
use doll_os.Prelude.Dict.{Dict, get}
use doll_os.Harness.Permissions.{
  Principal, owner, owner_dm, external_public, allows, tool_matrix, names_allowing, tools_for,
}
use doll_os.Harness.TurnPolicy.{
  TurnKind, conversation, reflection, diary, agenda, pulse, safe_mode, worker, keeper, Extra,
  KindTools, all_tools, only, Switches, policies, row, extra_names, kind_allows, bound_tools,
}
use doll_os.Harness.TurnPolicy.Offered.{tools_for-row}

extra_names-row :
    (p : Principal) (s : Switches) (es : List Extra) (n : String)
    → member n (extra_names p s es) ≡ true
    → allows (row n) p ≡ true
unfolding extra_names
extra_names-row p s [] n h = cc
extra_names-row p s (e ∷ es) n h = ground (arith, eq_iff n e.tool, extra_names-row p s es n)

mcp_only_in_conversation : (k : TurnKind) → (policies k).mcp_tools ≡ true → k ≡ conversation
unfolding policies
mcp_only_in_conversation conversation h = refl
mcp_only_in_conversation _ h = cc

-- A turn is bound only to tools whose row of the tool matrix has its principal, and, on a
-- conversation, to the MCP tools whose own row has it.
pub bound_tools-row :
    (k : TurnKind) (p : Principal) (registry : List String) (s : Switches)
    (mcp : Dict (List Principal)) (n : String)
    → member n (bound_tools k p registry s mcp) ≡ true
    → (allows (row n) p ≡ true) ⊎ ((k ≡ conversation) × (member n (names_allowing mcp p) ≡ true))
unfolding bound_tools
bound_tools-row k p registry s mcp n h =
    let own =
      keep (λ m. kind_allows (policies k).kind_tools m && member m (tools_for p)) registry in
    let extras = extra_names p s (policies k).extra_tools in
    ground (
      arith,
      member-append n (own ++ extras) (if (policies k).mcp_tools then names_allowing mcp p else []),
      member-append n own extras,
      member-keep n (λ m. kind_allows (policies k).kind_tools m && member m (tools_for p)) registry,
      tools_for-row p n,
      extra_names-row p s (policies k).extra_tools n,
      mcp_only_in_conversation k,
    )

row-names_allowing :
    (m : Dict (List Principal)) (p : Principal) (n : String)
    → allows (Option.get_or (get m n) []) p ≡ true
    → member n (names_allowing m p) ≡ true
unfolding get
row-names_allowing [] p n h = h
row-names_allowing ((k, r) ∷ m) p n h = ground (arith, row-names_allowing m p n)

-- The tools whose row has strangers.
stranger_row :
    (n : String)
    → allows (row n) external_public ≡ true
    → member n ("Recall" ∷ "NoteMemory" ∷ "WriteDiary" ∷ []) ≡ true
unfolding row tools_for
stranger_row n h =
    let t : member n (tools_for external_public) ≡ true =
      row-names_allowing tool_matrix external_public n h in
    t

-- A stranger's turn of any kind reaches the three tools of the strangers' row and, on a
-- conversation, the MCP tools that are open to strangers; nothing else, whatever is registered.
pub bound_tools-stranger :
    (k : TurnKind) (registry : List String) (s : Switches) (mcp : Dict (List Principal))
    (n : String)
    → member n (bound_tools k external_public registry s mcp) ≡ true
    → (member n ("Recall" ∷ "NoteMemory" ∷ "WriteDiary" ∷ []) ≡ true)
      ⊎ ((k ≡ conversation) × (member n (names_allowing mcp external_public) ≡ true))
bound_tools-stranger k registry s mcp n h =
    elim (bound_tools-row k external_public registry s mcp n h) [
      | inl r ↦ inl (stranger_row n r)
      | inr m ↦ inr m
    ]

learn_name_row : (p : Principal) → allows (row "LearnName") p ≡ true → (p ≡ owner) ⊎ (p ≡ owner_dm)
unfolding row get tool_matrix
learn_name_row p h = ground arith

-- A turn bound to LearnName has the owner present, if no MCP server offers a tool of that name.
pub learn_name-owner :
    (k : TurnKind) (p : Principal) (registry : List String) (s : Switches)
    (mcp : Dict (List Principal))
    → member "LearnName" (names_allowing mcp p) ≡ false
    → member "LearnName" (bound_tools k p registry s mcp) ≡ true
    → (p ≡ owner) ⊎ (p ≡ owner_dm)
learn_name-owner k p registry s mcp free h =
    ground (arith, bound_tools-row k p registry s mcp "LearnName" h, learn_name_row p)

narrow_part :
    (n : String) (registry : List String) (f : String → Bool)
    → member n (keep f registry ++ [] ++ []) ≡ member n registry && f n
narrow_part n registry f = ground (
  arith,
  member-append n (keep f registry ++ []) [],
  member-append n (keep f registry) [],
  member-keep n f registry,
)

-- The kinds that narrow the registry, with their lists.
abbrev pub narrow : TurnKind → KindTools
narrow conversation = all_tools
narrow reflection = all_tools
narrow diary = only ("WriteDiary" ∷ "Recall" ∷ [])
narrow agenda = only ("Recall" ∷ "AdvanceGoal" ∷ "CloseLoop" ∷ "MoodTool" ∷ [])
narrow pulse = only ("Recall" ∷ "NoteMemory" ∷ "MoodTool" ∷ [])
narrow safe_mode = only ("Recall" ∷ "ReadToolOutput" ∷ [])
narrow worker = only (
    "Shell" ∷ "NoteMemory" ∷ "Recall" ∷ "InvokeSkill" ∷ "Report" ∷ "ReadToolOutput" ∷ "SetFocus"
    ∷ "OpenLoop" ∷ "CloseLoop" ∷ [])
narrow keeper = only ("Report" ∷ "Scratchpad" ∷ [])

-- A turn of a kind that is neither a conversation nor a reflection runs exactly the registered
-- tools on the kind's list that the principal's row has: no extra and no MCP tool joins them.
pub bound_tools-narrow :
    (k : TurnKind) (p : Principal) (registry : List String) (s : Switches)
    (mcp : Dict (List Principal)) (n : String)
    → k ≢ conversation
    → k ≢ reflection
    → member n (bound_tools k p registry s mcp)
      ≡ member n registry && (kind_allows (narrow k) n && member n (tools_for p))
unfolding bound_tools policies extra_names
bound_tools-narrow conversation p registry s mcp n c r = absurd (c refl)
bound_tools-narrow reflection p registry s mcp n c r = absurd (r refl)
bound_tools-narrow k p registry s mcp n c r =
    narrow_part n registry (λ m. kind_allows (narrow k) m && member m (tools_for p))
