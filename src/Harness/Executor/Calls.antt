-- ===== src/Harness/Executor/Calls.antt =====
-- What one call does, on each of its three paths.
use doll_os.Prelude.{
  String, ◌≡◌, ◌≢◌, ◌⊎◌, inl, refl, ◌∙◌, Bool, true, false, Option, none, some, List, [], ◌∷◌, ◌++◌,
  arith, member,
}
use doll_os.Prelude.Dict.{Dict, get, has, get-restrict}
use doll_os.Harness.Permissions.{external_public, tainted_tools}
use doll_os.Harness.Executor.{
  failure, names, unknown_tool, Decision, allow, deny, unbound, tool_call, turn_tainted, Ctx, Tools,
  Executor, ToolResult, is_tainted, taint_of, effective_bound, decide, dispatch_one, maybe_taint,
  refusal, carry_out, run, run_all,
}

-- A call that ran no tool: it has a failed result, and left the context alone.
pub record IsNoop {S : Type 0} (before after : Ctx S) (result : Option ToolResult) : Type 0 where
  pub failed : (r : ToolResult) × (result ≡ some r) × (r.success ≡ false)
  pub rest_kept : after.rest ≡ before.rest
  pub taint_kept : after.tainted ≡ before.tainted

module _ {S : Type 0} (tools : Tools S) where
  open tools use {Tool, Arguments, taints}

  -- What is bound now was bound at the turn's start.
  effective_bound-get :
      (e : Executor tools) (ctx : Ctx S) (name : String)
      → get e.bound name ≡ none
      → get (effective_bound tools e ctx) name ≡ none
  unfolding effective_bound
  effective_bound-get e ctx name h =
      ground (arith, get-restrict (λ n. member n tainted_tools) e.bound name)

  unknown_name :
      (e : Executor tools) (ctx : Ctx S) (name : String)
      → (has e.bound name ≡ true → has e.offered name ≡ true)
      → decide tools e ctx name ≡ deny
      → get e.bound name ≡ none
  unfolding decide
  unknown_name e ctx name sub h = ground arith

  dispatch_one-unknown :
      (name : String) (args : Arguments) (ctx : Ctx S) (registry : Dict Tool)
      → get registry name ≡ none
      → (r : ToolResult) × ((dispatch_one tools name args ctx registry).0 ≡ some r)
        × (r.success ≡ false)
        × ((dispatch_one tools name args ctx registry).1 ≡ ctx.rest)
  unfolding dispatch_one
  dispatch_one-unknown name args ctx registry h = (
    failure tools name (unknown_tool name (names registry)),
    rw (h, dispatch_one),
    refl,
    rw (h, dispatch_one),
  )

  carry_out-not_allowed :
      (d : Decision) (e : Executor tools) (ctx : Ctx S) (name : String) (args : Arguments)
      → d ≢ allow
      → (d ≡ deny → get e.bound name ≡ none)
      → IsNoop ctx (carry_out tools d e name args ctx).1 (carry_out tools d e name args ctx).0
  unfolding carry_out dispatch_one refusal
  carry_out-not_allowed allow e ctx name args a n = absurd (a refl)
  carry_out-not_allowed unbound e ctx name args a n = record {
    failed = (refusal tools e ctx name, refl, refl);
    rest_kept = refl;
    taint_kept = refl;
  }
  carry_out-not_allowed deny e ctx name args a n =
      let u =
        dispatch_one-unknown name args ctx (effective_bound tools e ctx)
          (effective_bound-get e ctx name (n refl)) in
      record { failed = (u.0, u.1, u.2); rest_kept = u.3; taint_kept = refl }

  -- A tool that is not allowed does not run, if every bound tool is offered: the call fails, and
  -- neither the turn's taint nor anything else in the context but the log has changed.
  pub run-not_allowed :
      (e : Executor tools) (ctx : Ctx S) (name : String) (args : Arguments)
      → (has e.bound name ≡ true → has e.offered name ≡ true)
      → decide tools e ctx name ≢ allow
      → IsNoop ctx (run tools e name args ctx).1 (run tools e name args ctx).0
  unfolding run
  run-not_allowed e ctx name args sub h =
      let n =
        carry_out-not_allowed (decide tools e ctx name) e _ name args h
          (unknown_name e ctx name sub) in
      record { failed = n.failed; rest_kept = n.rest_kept; taint_kept = n.taint_kept }

  log-carry_out :
      (d : Decision) (e : Executor tools) (ctx : Ctx S) (name : String) (args : Arguments)
      → ((carry_out tools d e name args ctx).1.log ≡ ctx.log)
        ⊎ ((carry_out tools d e name args ctx).1.log
            ≡ ctx.log ++ turn_tainted e.principal e.kind name ∷ [])
  unfolding carry_out maybe_taint
  log-carry_out allow e ctx name args = ground arith
  log-carry_out deny e ctx name args = inl refl
  log-carry_out unbound e ctx name args = inl refl

  -- Each call adds its own record to the log, with its decision, and at most a record of the taint.
  pub log-run :
      (e : Executor tools) (ctx : Ctx S) (name : String) (args : Arguments)
      → let record_ =
          tool_call e.principal e.kind name
            (decide tools e ctx name)
            (is_tainted tools (taint_of tools e ctx)) in
        ((run tools e name args ctx).1.log ≡ ctx.log ++ record_ ∷ [])
        ⊎ ((run tools e name args ctx).1.log
            ≡ ctx.log ++ record_ ∷ [] ++ turn_tainted e.principal e.kind name ∷ [])
  unfolding run
  log-run e ctx name args = log-carry_out (decide tools e ctx name) e _ name args

  run-stranger :
      (d : Decision) (e : Executor tools) (ctx : Ctx S) (name : String) (args : Arguments)
      → e.principal ≡ external_public
      → (carry_out tools d e name args ctx).1.tainted ≡ ctx.tainted
  unfolding carry_out maybe_taint
  run-stranger allow e ctx name args p = rw p
  run-stranger deny e ctx name args p = refl
  run-stranger unbound e ctx name args p = refl

  run_all-stranger_flag :
      (e : Executor tools) (calls : List (String × Arguments)) (ctx : Ctx S)
      → e.principal ≡ external_public
      → (run_all tools e calls ctx).tainted ≡ ctx.tainted
  unfolding run_all run
  run_all-stranger_flag e [] ctx p = refl
  run_all-stranger_flag e ((name, args) ∷ calls) ctx p =
      run_all-stranger_flag e calls (run tools e name args ctx).1 p
      ∙ run-stranger (decide tools e ctx name) e _ name args p

  -- A stranger's turn is never narrowed further: its calls leave the taint flag as it was, and
  -- the flag changes no decision.
  pub run_all-stranger :
      (e : Executor tools) (calls : List (String × Arguments)) (ctx : Ctx S)
      → e.principal ≡ external_public
      → ((run_all tools e calls ctx).tainted ≡ ctx.tainted)
        × ((flag : Bool) (name : String)
            → decide tools e (record ctx { tainted = flag }) name ≡ decide tools e ctx name)
  unfolding decide effective_bound taint_of
  run_all-stranger e calls ctx p =
      (run_all-stranger_flag e calls ctx p, λ flag name. rw p (ground arith))
