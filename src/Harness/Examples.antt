-- ===== src/Harness/Examples.antt =====
-- Batches, bindings and calls of the harness on concrete inputs.
use doll_os.Prelude.{
  ℕ, ◌+◌, ◌≤◌, Among, String, ◌≡◌, ◌⊎◌, refl, Bool, true, false, none, some, List, [], ◌∷◌, member,
}
use doll_os.Prelude.Dict.{Dict, get, restrict}
use doll_os.Perception.{Perception, bool}
use doll_os.Harness.Permissions.{
  Principal, owner, owner_dm, internal, external_public, rank, author_principal, principal_of,
  tool_matrix, names_allowing, tools_for, tainted_tools,
}
use doll_os.Harness.Permissions.Trust.{principal_of-lowest}
use doll_os.Harness.TurnPolicy.{
  TurnKind, conversation, reflection, diary, agenda, pulse, Switches, all_tools, policies,
  kind_allows, kind_of, moment_of, bound_tools, builtin_names, same_tier, offered_tools, row,
}
use doll_os.Harness.TurnPolicy.Limits.{bound_tools-stranger}
use doll_os.Harness.TurnPolicy.Offered.{bound-sub-offered}
use doll_os.Harness.Executor.{
  Ctx, Tools, effective_bound, dispatch_one, maybe_taint, Executor, said, taint_of, decide,
  effective_bound, dispatch_one, maybe_taint, run, run_all,
}
use doll_os.Harness.Executor.Narrowing.{run_all-narrowed}

abbrev spoken : Perception
spoken = record { kind = "UserSpoke"; t = 1; data_ = []; seq = none }

abbrev posted : Perception
posted = record {
  kind = "ChannelMessage";
  t = 2;
  data_ = ("author_is_owner", bool true) ∷ ("is_dm", bool false) ∷ [];
  seq = none;
}

abbrev agenda_moment : Perception
agenda_moment = record { kind = "AgendaMoment"; t = 3; data_ = []; seq = none }

abbrev batch : List Perception
batch = spoken ∷ posted ∷ []

principal_of-lowest_example :
    ((p : Perception) (a : Principal)
      → Among p batch
      → author_principal p ≡ some a
      → rank a ≤ rank (principal_of batch))
    × (((p : Perception) × Among p batch × (author_principal p ≡ some (principal_of batch)))
        ⊎ (((p : Perception) → Among p batch → author_principal p ≡ none)
            × (principal_of batch ≡ internal)))
principal_of-lowest_example = principal_of-lowest batch

abbrev registry : List String
registry = "Recall" ∷ "Shell" ∷ "MoodTool" ∷ []

abbrev all_on : Switches
all_on = record { self_profile_on = true; evolution_on = true }

abbrev servers : Dict (List Principal)
servers = ("web_search", owner ∷ owner_dm ∷ []) ∷ []

abbrev owner_offer : List String
owner_offer =
    "Recall" ∷ "Shell" ∷ "MoodTool" ∷ "LearnName" ∷ "PinSelf" ∷ "NoteToolLesson" ∷ "PinSelf"
    ∷ "SelfRevision" ∷ "LearnName" ∷ "NoteToolLesson" ∷ "PinSelf" ∷ "SelfRevision" ∷ "web_search"
    ∷ []

bound-sub-offered_example : member "web_search" owner_offer ≡ true
unfolding offered_tools bound_tools get tool_matrix same_tier doll_os.Harness.TurnPolicy.extra_names
    tools_for
bound-sub-offered_example =
    bound-sub-offered conversation owner registry all_on servers owner_offer "web_search" refl refl

bound_tools-stranger_example :
    (member "Recall" ("Recall" ∷ "NoteMemory" ∷ "WriteDiary" ∷ []) ≡ true)
    ⊎ ((reflection ≡ conversation)
        × (member "Recall" (names_allowing servers external_public) ≡ true))
unfolding bound_tools tools_for
bound_tools-stranger_example = bound_tools-stranger reflection registry all_on servers "Recall" refl

-- A tool is its name, its argument says whether it asks for external content, and a run counts.
abbrev toy : Tools ℕ
toy = record {
  Tool = String;
  Arguments = Bool;
  invalid = λ tool args. none;
  run_tool = λ tool args ctx. (said tool, ctx.rest + 1);
  taints = λ tool args. args;
}

abbrev owner_turn : Executor toy
owner_turn = record {
  offered = ("Recall", "Recall") ∷ ("Shell", "Shell") ∷ ("LearnName", "LearnName") ∷ [];
  bound = ("Recall", "Recall") ∷ ("Shell", "Shell") ∷ [];
  principal = owner;
  kind = reflection;
}

abbrev start : Ctx ℕ
start = record { tainted = false; tainted_by_page = false; rest = 0; log = [] }

run_all-narrowed_example : member "Recall" tainted_tools ≡ true
unfolding decide taint_of run run_all effective_bound dispatch_one maybe_taint tainted_tools get
    restrict
run_all-narrowed_example =
    run_all-narrowed toy owner_turn start "Recall" true "Recall" (("Shell", false) ∷ []) "Recall"
      (λ e. cc) refl refl refl refl

abbrev stranger_turn : Executor toy
stranger_turn = record owner_turn { principal = external_public }
