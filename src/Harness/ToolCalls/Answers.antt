-- ===== src/Harness/ToolCalls/Answers.antt =====
-- Every call is answered in its place, and none runs behind an interrupt.
use doll_os.Prelude.{
  ◌≡◌, refl, sym, ap, ◌∙◌, true, false, List, [], ◌∷◌, ◌++◌, map, Bool-cases, inl, inr,
}
use doll_os.Harness.ToolCalls.{
  World, ToolCall, CallOutcome, not_run, run_one, message_text, run_tool_calls,
}

module _ {S : Type 0} (world : World S) where
  open world use {Args, parse, dispatch, stop, note}

  -- Whatever the model sends and the tools do: each call has one outcome and one message, in the
  -- order of the calls, and the message carries the id of its call.
  pub run_tool_calls-answered :
      (calls : List ToolCall) (s : S)
      → (map (λ o. o.call) (run_tool_calls world calls s).0 ≡ calls)
        × (map (λ o. o.message.tool_call_id) (run_tool_calls world calls s).0
            ≡ map (λ c. c.id) calls)
  unfolding run_tool_calls not_run
  run_tool_calls-answered [] s = (refl, refl)
  run_tool_calls-answered (c ∷ calls) s = elim (Bool-cases (stop s)) [
    | inl y ↦
        let rest = run_tool_calls-answered calls s in
        rw y (ap (λ cs. c ∷ cs) rest.0, ap (λ ids. c.id ∷ ids) rest.1)
    | inr n ↦
        let rest = run_tool_calls-answered calls (run_one world c s).1 in
        rw n (ap (λ cs. c ∷ cs) rest.0, ap (λ ids. c.id ∷ ids) rest.1)
  ]

  -- Behind an interrupt no call runs: each is answered as not run, and nothing changes.
  run_tool_calls-stopped :
      (calls : List ToolCall) (s : S)
      → stop s ≡ true
      → run_tool_calls world calls s ≡ (map not_run calls, s)
  unfolding run_tool_calls
  run_tool_calls-stopped [] s h = refl
  run_tool_calls-stopped (c ∷ calls) s h =
      rw h (ap (λ r. (not_run c ∷ r.0, r.1)) (run_tool_calls-stopped calls s h))

  -- The outcome of a call that runs.
  abbrev answer : ToolCall → S → CallOutcome
  answer c s = record {
    call = c;
    result = (run_one world c s).0;
    message = record {
      tool_call_id = c.id;
      content = message_text world c.name (run_one world c s).0.detail;
    };
  }

  run_tool_calls-runs :
      (c : ToolCall) (calls : List ToolCall) (s : S)
      → stop s ≡ false
      → run_tool_calls world (c ∷ calls) s ≡ (
        answer c s ∷ (run_tool_calls world calls (run_one world c s).1).0,
        (run_tool_calls world calls (run_one world c s).1).1,
      )
  unfolding run_tool_calls
  run_tool_calls-runs c calls s h = rw h refl

  map-append : (xs ys : List ToolCall) → map not_run (xs ++ ys) ≡ map not_run xs ++ map not_run ys
  map-append [] ys = refl
  map-append (x ∷ xs) ys = ap (λ t. not_run x ∷ t) (map-append xs ys)

  -- If the interrupt comes while the first calls of a reply run, these are answered as they would be
  -- alone, each of the others is answered as not run, and the others change nothing.
  pub run_tool_calls-interrupted :
      (first later : List ToolCall) (s : S)
      → stop (run_tool_calls world first s).1 ≡ true
      → run_tool_calls world (first ++ later) s
        ≡ ((run_tool_calls world first s).0 ++ map not_run later, (run_tool_calls world first s).1)
  unfolding run_tool_calls
  run_tool_calls-interrupted [] later s h = run_tool_calls-stopped later s h
  run_tool_calls-interrupted (c ∷ first) later s h = elim (Bool-cases (stop s)) [
    | inl y ↦
        run_tool_calls-stopped (c ∷ first ++ later) s y
        ∙ ap (λ t. (t, s)) (map-append (c ∷ first) later)
        ∙ sym (ap (λ r. (r.0 ++ map not_run later, r.1)) (run_tool_calls-stopped (c ∷ first) s y))
    | inr n ↦
        let e = run_tool_calls-runs c first s n in
        run_tool_calls-runs c (first ++ later) s n
        ∙ ap (λ r. (answer c s ∷ r.0, r.1))
            (run_tool_calls-interrupted first later (run_one world c s).1
              (ap (λ r. stop r.1) (sym e) ∙ h))
        ∙ sym (ap (λ r. (r.0 ++ map not_run later, r.1)) e)
  ]
