-- ===== src/Harness/Executor/Narrowing.antt =====
-- Taint: once a turn has read untrusted content, the rest of it is narrowed.
use doll_os.Prelude.{String, ◌≡◌, ◌≢◌, true, some, List, [], ◌∷◌, arith, member}
use doll_os.Prelude.Dict.{get, get-restrict}
use doll_os.Harness.Permissions.{external_public, tainted_tools}
use doll_os.Harness.Permissions.Trust.{rank-injective}
use doll_os.Harness.Executor.{
  Decision, allow, deny, unbound, Ctx, Tools, Executor, taint_of, effective_bound, decide,
  maybe_taint, carry_out, run, run_all,
}

module _ {S : Type 0} (tools : Tools S) where
  open tools use {Tool, Arguments, taints}

  -- A tainted turn of anyone but a stranger is allowed the tainted tools only.
  decide-tainted :
      (e : Executor tools) (ctx : Ctx S) (name : String)
      → ctx.tainted ≡ true
      → e.principal ≢ external_public
      → decide tools e ctx name ≡ allow
      → member name tainted_tools ≡ true
  unfolding decide effective_bound taint_of
  decide-tainted e ctx name t p h = ground (
    arith,
    rank-injective e.principal external_public,
    get-restrict (λ n. member n tainted_tools) e.bound name,
  )

  carry_out-tainted :
      (d : Decision) (e : Executor tools) (name : String) (args : Arguments) (ctx : Ctx S)
      → ctx.tainted ≡ true
      → (carry_out tools d e name args ctx).1.tainted ≡ true
  unfolding carry_out maybe_taint
  carry_out-tainted allow e name args ctx t = ground arith
  carry_out-tainted deny e name args ctx t = t
  carry_out-tainted unbound e name args ctx t = t

  run_all-tainted :
      (e : Executor tools) (calls : List (String × Arguments)) (ctx : Ctx S)
      → ctx.tainted ≡ true
      → (run_all tools e calls ctx).tainted ≡ true
  unfolding run_all run
  run_all-tainted e [] ctx t = t
  run_all-tainted e ((name, args) ∷ calls) ctx t =
      run_all-tainted e calls (run tools e name args ctx).1 (carry_out-tainted _ e name args _ t)

  -- After an allowed call that asks for untrusted content the turn is tainted, unless it is a
  -- stranger's.
  run-taints :
      (e : Executor tools) (ctx : Ctx S) (name : String) (args : Arguments) (tool : Tool)
      → e.principal ≢ external_public
      → decide tools e ctx name ≡ allow
      → get e.bound name ≡ some tool
      → taints tool args ≡ true
      → (run tools e name args ctx).1.tainted ≡ true
  unfolding run carry_out maybe_taint
  run-taints e ctx name args tool p d g t =
      rw d (ground (arith, rank-injective e.principal external_public))

  -- In a turn that is not a stranger's, after an allowed call that asks for untrusted content,
  -- and after any further calls, only the tainted tools are allowed.
  pub run_all-narrowed :
      (e : Executor tools) (ctx : Ctx S) (name : String) (args : Arguments) (tool : Tool)
      (calls : List (String × Arguments)) (later : String)
      → e.principal ≢ external_public
      → decide tools e ctx name ≡ allow
      → get e.bound name ≡ some tool
      → taints tool args ≡ true
      → decide tools e (run_all tools e calls (run tools e name args ctx).1) later ≡ allow
      → member later tainted_tools ≡ true
  run_all-narrowed e ctx name args tool calls later p d g t h =
      decide-tainted e (run_all tools e calls (run tools e name args ctx).1) later
        (run_all-tainted e calls (run tools e name args ctx).1
          (run-taints e ctx name args tool p d g t))
        p h
