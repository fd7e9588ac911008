-- ===== src/Harness/Thread.antt =====
-- What `TurnRunner.run` of src/dollos/harness/runner.py reads of the passes that `_stream_one_pass` makes,
-- and the thread that it leaves.
use mathlib.Core.List.{append_assoc}
use doll_os.Prelude.Floats.{Floats}
use doll_os.Prelude.{
  ℕ, zero, suc, ◌≡◌, refl, sym, ap, ◌∙◌, subst, Bool, false, Option, none, some, List, [], ◌∷◌,
  ◌++◌, ◌==◌, map, some_inj, inl, inr,
}
use doll_os.Harness.TurnPolicy.{TurnPolicy}
use doll_os.Harness.Executor.{Detail}
use doll_os.Harness.ToolCalls.{ToolCall, CallOutcome, ToolMessage, World}
use doll_os.Harness.Runner.{ErrorKind, Pass, ToolOutcome, contribution, run_turn, as_list, answers}
use doll_os.Harness.Runner.Ends.{sent, run_turn-Ran}
use doll_os.Harness.Passes.{OnePass, one_pass}
use doll_os.Harness.Passes.Answered.{Answered, reply_calls, one_pass-Answered, unasked}
use doll_os.Llm.{Message, End}
use doll_os.Llm.Adapter.{Wire, ServerAnswer, Failure, transport, server, stream}

-- A message of the thread behind its beginning.
pub data Posted : Type 0 where
  assistant : Message → Posted
  tool : ToolMessage → Posted

abbrev pub failure_kind : Failure → ErrorKind
failure_kind transport = ErrorKind.transport
failure_kind server = ErrorKind.server

abbrev pub error_kind : Option Failure → Option ErrorKind
error_kind none = none
error_kind (some f) = some (failure_kind f)

abbrev pub posted : Option Message → Option Posted
posted none = none
posted (some m) = some (assistant m)

-- `p.end.finish_reason == "length"`
abbrev pub is_cut_by_length : {Real : Type 0} → Option (End Real) → Bool
is_cut_by_length none = false
is_cut_by_length (some e) = e.finish_reason == "length"

module _ (Report : Type 0) (detail_of : List ℕ → Detail) where
  -- What is told of a call is kept by `detail_of`.
  abbrev pub outcome_of_call : CallOutcome → ToolOutcome Posted Report
  outcome_of_call c = record {
    result = record {
      tool_name = c.result.tool_name;
      success = c.result.success;
      detail = detail_of c.result.detail;
      refused = c.result.refused;
    };
    message = tool c.message;
  }

  -- A pass as the loop reads it, with the interrupt before it and the agent's report behind it.
  abbrev pub to_pass : {Real : Type 0} → Bool → Option Report → OnePass Real → Pass Posted Report
  to_pass before said o = record {
    cancelled_before = before;
    error = error_kind o.error;
    cancelled = o.cancelled;
    reply = posted o.reply;
    outcomes = map outcome_of_call o.outcomes;
    cut_by_length = is_cut_by_length o.end;
    agent_report = said;
  }

-- Replies, each with the tool messages behind it that answer its calls, by their ids and in their order.
pub data IsAnswered : List Posted → Type 0 where
  nothing : IsAnswered []
  reply_with :
      {rest thread : List Posted} (m : Message) (ts : List ToolMessage)
      → map (λ (t : ToolMessage). t.tool_call_id) ts ≡ map (λ (c : ToolCall). c.id) m.tool_calls
      → IsAnswered rest
      → thread ≡ assistant m ∷ (map tool ts ++ rest)
      → IsAnswered thread

IsAnswered-append : {xs ys : List Posted} → IsAnswered xs → IsAnswered ys → IsAnswered (xs ++ ys)
IsAnswered-append nothing k = k
IsAnswered-append {xs} {ys} (reply_with {rest} m ts e r w) k =
    reply_with m ts e (IsAnswered-append r k)
      (ap (λ t. t ++ ys) w ∙ ap (λ t. assistant m ∷ t) (append_assoc (map tool ts) rest ys))

abbrev message_of : CallOutcome → ToolMessage
message_of c = c.message

ids-messages :
    (cs : List CallOutcome)
    → map (λ (t : ToolMessage). t.tool_call_id) (map message_of cs)
      ≡ map (λ (c : CallOutcome). c.message.tool_call_id) cs
ids-messages [] = refl
ids-messages (c ∷ cs) = ap (λ t. c.message.tool_call_id ∷ t) (ids-messages cs)

module _ (Report : Type 0) (detail_of : List ℕ → Detail) where
  answers-messages :
      (cs : List CallOutcome)
      → answers Posted Report (map (outcome_of_call Report detail_of) cs)
        ≡ map tool (map message_of cs) ++ []
  answers-messages [] = refl
  answers-messages (c ∷ cs) = ap (λ t. tool c.message ∷ t) (answers-messages cs)

  -- What a pass leaves in the thread, by its error and its reply.
  left_by : (e : Option Failure) (reply : Option Message) (cs : List CallOutcome) → List Posted
  left_by none reply cs =
      as_list Posted Report (posted reply)
      ++ answers Posted Report (map (outcome_of_call Report detail_of) cs)
  left_by (some server) reply cs = []
  left_by (some transport) reply cs = as_list Posted Report (posted reply)

  contribution-left_by :
      {Real : Type 0} (before : Bool) (said : Option Report) (o : OnePass Real) (e : Option Failure)
      → o.error ≡ e
      → contribution Posted Report (to_pass Report detail_of before said o)
        ≡ left_by e o.reply o.outcomes
  unfolding contribution left_by
  contribution-left_by before said o none h = simp h refl
  contribution-left_by before said o (some server) h = simp h refl
  contribution-left_by before said o (some transport) h = simp h refl

  left_by-IsAnswered :
      (e : Option Failure) (reply : Option Message) (cs : List CallOutcome)
      → map (λ (c : CallOutcome). c.message.tool_call_id) cs
        ≡ map (λ (c : ToolCall). c.id) (reply_calls reply)
      → unasked e cs ≡ []
      → IsAnswered (left_by e reply cs)
  unfolding left_by
  left_by-IsAnswered none none [] h n = nothing
  left_by-IsAnswered none none (c ∷ cs) h n = cc
  left_by-IsAnswered none (some m) cs h n =
      reply_with m (map message_of cs) (ids-messages cs ∙ h) nothing
        (ap (λ t. assistant m ∷ t) (answers-messages cs))
  left_by-IsAnswered (some server) reply cs h n = nothing
  left_by-IsAnswered (some transport) none cs h n = nothing
  left_by-IsAnswered (some transport) (some m) cs h n =
      reply_with m [] (ap (map (λ (c : CallOutcome). c.message.tool_call_id)) (sym n) ∙ h) nothing
        refl

  pass-IsAnswered :
      {Real : Type 0} (before : Bool) (said : Option Report) (o : OnePass Real)
      → Answered o
      → IsAnswered (contribution Posted Report (to_pass Report detail_of before said o))
  pass-IsAnswered before said o a =
      subst IsAnswered (sym (contribution-left_by before said o o.error refl))
        (left_by-IsAnswered o.error o.reply o.outcomes a.0 a.1)

  sent-IsAnswered :
      (env : ℕ → Pass Posted Report)
      → ((i : ℕ) → IsAnswered (contribution Posted Report (env i)))
      → (k i : ℕ) → IsAnswered (sent Posted Report env i k)
  unfolding sent
  sent-IsAnswered env h zero i = nothing
  sent-IsAnswered env h (suc k) i = IsAnswered-append (h i) (sent-IsAnswered env h k (suc i))

module _ {S : Type 0} (floats : Floats) (wire : Wire floats.Real) (blank : ℕ → Bool)
    (world : World S) (speaks : Bool) (Report : Type 0) (detail_of : List ℕ → Detail) where
  open floats use {Real}

  came-Answered :
      (start : Real) (answer : ServerAnswer Real) (stop : ℕ → Bool) (s t : S) (o : OnePass Real)
      → one_pass blank world speaks stop (stream floats wire start answer) s ≡ some (o, t)
      → Answered o
  came-Answered start answer stop s t o h =
      elim (one_pass-Answered floats wire blank world speaks start answer stop s) [
        | inl (p, q, came, a) ↦
            subst (λ (p : OnePass Real × S). Answered p.0) (some_inj (sym came ∙ h)) a
        | inr (left, raised) ↦ cc
      ]

  -- A turn, each pass of which returns and is what a model call gives: whatever the server answers, whenever
  -- an interrupt comes, and whatever the tools do and the agent reports, the thread is the one that the
  -- turn began with, and then replies, each with the tool messages behind it that answer its calls by
  -- their ids and in their order.
  pub run_turn-IsAnswered :
      (policy : TurnPolicy) (messages : List Posted) (passes : ℕ → OnePass Real) (before : ℕ → Bool)
      (said : ℕ → Option Report) (start : ℕ → Real) (answer : ℕ → ServerAnswer Real)
      (stop : ℕ → ℕ → Bool) (s t : ℕ → S)
      → ((i : ℕ)
          → one_pass blank world speaks (stop i) (stream floats wire (start i) (answer i)) (s i)
            ≡ some (passes i, t i))
      → (added : List Posted) × ((run_turn Posted Report policy
            (λ i. to_pass Report detail_of (before i) (said i) (passes i))
            messages).messages
          ≡ messages ++ added)
        × IsAnswered added
  run_turn-IsAnswered policy messages passes before said start answer stop s t h =
      let env = λ (i : ℕ). to_pass Report detail_of (before i) (said i) (passes i) in
      let ran = run_turn-Ran Posted Report policy env messages in
      (
        sent Posted Report env 0 ran.count,
        ran.thread,
        sent-IsAnswered Report detail_of env
            (λ i.
              pass-IsAnswered Report detail_of (before i) (said i) (passes i)
                (came-Answered (start i) (answer i) (stop i) (s i) (t i) (passes i) (h i)))
            ran.count 0,
      )
