-- ===== src/Harness/ToolCalls/Examples.antt =====
-- Replies in a world whose state says how many calls run before the interrupt comes. Arguments that
-- are empty are no JSON.
use doll_os.Prelude.{ℕ, ◌-◌, ◌≡◌, refl, true, false, none, List, [], ◌∷◌, ◌++◌, eqb, map}
use doll_os.Harness.ToolCalls.{World, ToolCall, Parsed, object, bad, not_run, run_tool_calls}
use doll_os.Harness.ToolCalls.Answers.{run_tool_calls-interrupted}

abbrev parse_args : List ℕ → Parsed ℕ
parse_args [] = bad (b'e' ∷ [])
parse_args (c ∷ s) = object c

abbrev world : World ℕ
world = record {
  Args = ℕ;
  parse = parse_args;
  dispatch = λ name args s. (none, s - 1);
  stop = λ s. eqb s 0;
  note = λ n. [];
}

abbrev recall : ToolCall
recall = record { id = "1"; name = "Recall"; arguments = b'{' ∷ b'}' ∷ [] }

abbrev broken : ToolCall
broken = record { id = "2"; name = "Recall"; arguments = [] }

abbrev shell : ToolCall
shell = record { id = "3"; name = "Shell"; arguments = b'{' ∷ b'}' ∷ [] }

-- The broken call fails without running, and the last one comes behind the interrupt.
ran :
    map (λ o. o.result.success) (run_tool_calls world (broken ∷ recall ∷ shell ∷ []) 1).0
    ≡ false ∷ true ∷ false ∷ []
unfolding run_tool_calls
ran = refl

run_tool_calls-interrupted_example :
    run_tool_calls world ((broken ∷ recall ∷ []) ++ shell ∷ []) 1 ≡ (
      (run_tool_calls world (broken ∷ recall ∷ []) 1).0 ++ map not_run (shell ∷ []),
      (run_tool_calls world (broken ∷ recall ∷ []) 1).1,
    )
unfolding run_tool_calls
run_tool_calls-interrupted_example =
    run_tool_calls-interrupted world (broken ∷ recall ∷ []) (shell ∷ []) 1 refl
