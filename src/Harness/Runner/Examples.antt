-- ===== src/Harness/Runner/Examples.antt =====
-- Turns of a few passes.
use doll_os.Prelude.{
  ℕ, suc, ◌≤◌, ◌≡◌, ◌≢◌, ◌↔◌, refl, Bool, true, false, none, some, List, [], ◌∷◌, String,
}
use doll_os.Harness.TurnPolicy.{policies, conversation, safe_mode_rule}
use doll_os.Harness.Executor.{ToolResult, text}
use doll_os.Harness.Runner.{fresh, add, safe_mode_reason, Pass, begin, run_turn, EndedBy}
use doll_os.Harness.Runner.Strikes.{add_passes, trailing, concat, safe_mode_reason-trailing}
use doll_os.Harness.Runner.Ends.{Ran, run_turn-Ran}

abbrev result : String → Bool → Bool → ToolResult
result name ok refused = record {
  tool_name = name;
  success = ok;
  detail = text "";
  refused = refused;
}

-- A success, then three failures of two tools over two passes, a refusal between them.
abbrev passes : List (List ToolResult)
passes =
    (result "Recall" true false ∷ result "Shell" false false ∷ [])
    ∷ (result "Recall" false false
        ∷ result "LearnName" false true
        ∷ result "Shell" false false
        ∷ [])
    ∷ []

three_in_a_row : trailing (concat passes) ≡ 3
three_in_a_row = refl

safe_mode_reason-trailing_example :
    (safe_mode_reason (add_passes passes (fresh safe_mode_rule)) ≢ none)
    ↔ (3 ≤ trailing (concat passes))
safe_mode_reason-trailing_example = safe_mode_reason-trailing passes

-- Every pass calls Shell, which fails; a message is a text, and there is no report.
abbrev failing : ℕ → Pass String String
failing i = record {
  cancelled_before = false;
  error = none;
  cancelled = false;
  reply = some "call";
  outcomes = record { result = result "Shell" false false; message = "failed" } ∷ [];
  cut_by_length = false;
  agent_report = none;
}

stops_in_safe_mode :
    (run_turn String String (policies conversation) failing []).ended_by ≡ EndedBy.safe_mode
unfolding run_turn policies add doll_os.Prelude.Dict.put doll_os.Prelude.Dict.get
stops_in_safe_mode = refl

run_turn-Ran_example :
    Ran String String failing
      (policies conversation).max_passes
      (begin String String [])
      (run_turn String String (policies conversation) failing [])
run_turn-Ran_example = run_turn-Ran String String (policies conversation) failing []
