-- ===== src/Harness/Runner/Ends.antt =====
-- How a turn ends, after how many passes, and what it leaves in the thread.
use mathlib.Core.List.{append_assoc, append-nil}
use doll_os.Prelude.{
  ℕ, zero, suc, ◌+◌, ◌≤◌, ◌≡◌, refl, sym, ap, ◌∙◌, Option, some, List, [], ◌++◌, arith, Bool-cases,
  Option-cases, inl, inr, ◌≢◌,
}
use doll_os.Harness.TurnPolicy.{TurnPolicy}
use doll_os.Harness.Runner.{
  Failures, fresh, Outcome, done, cut, failed, brain_down, EndedBy, no_tool_calls, report, cancel,
  max_tokens, safe_mode, stuck_on, unbound_limit, max_passes, model_error, tripped, Next, stop,
  go_on, after_pass, Pass, TurnResult, contribution, took, run_passes, run_turn, add, results,
  follow, begin,
}

-- Each rule that ends a turn has one outcome.
abbrev pub outcome_of : EndedBy → Outcome
outcome_of no_tool_calls = done
outcome_of report = done
outcome_of cancel = cut
outcome_of max_tokens = cut
outcome_of safe_mode = failed
outcome_of stuck_on = failed
outcome_of unbound_limit = failed
outcome_of max_passes = failed
outcome_of model_error = brain_down

module _ (Message Report : Type 0) where
  -- What the passes from `i` on put into the thread, for so many passes.
  unfoldable pub sent : (ℕ → Pass Message Report) → ℕ → ℕ → List Message
  sent env i zero = []
  sent env i (suc k) = contribution Message Report (env i) ++ sent env (suc i) k

  -- What a run of passes does to the result that it starts from.
  pub record Ran (env : ℕ → Pass Message Report) (left : ℕ)
      (before after : TurnResult Message Report) : Type 0 where
    pub count : ℕ
    pub in_limit : count ≤ left
    pub passes : after.passes ≡ before.passes + count
    pub thread : after.messages ≡ before.messages ++ sent env before.passes count
    pub outcome : after.outcome ≡ outcome_of after.ended_by
    pub exhausted : after.ended_by ≡ max_passes → count ≡ left

  tripped-outcome :
      (policy : TurnPolicy) (f : Failures) (by : EndedBy)
      → tripped Message Report policy f ≡ some by
      → (outcome_of by ≡ failed) × (by ≢ max_passes)
  unfolding tripped
  tripped-outcome policy f by e = ground arith

  after_pass-stop :
      (policy : TurnPolicy) (p : Pass Message Report) (f : Failures) (o : Outcome) (by : EndedBy)
      (said : Option Report)
      → after_pass Message Report policy p f ≡ stop o by said
      → (o ≡ outcome_of by) × (by ≢ max_passes)
  unfolding after_pass
  after_pass-stop policy p f o by said e =
      ground (arith, tripped-outcome policy (add (results Message Report p.outcomes) f) by)

  Ran-now :
      (env : ℕ → Pass Message Report) (left : ℕ) (r : TurnResult Message Report) (o : Outcome)
      (by : EndedBy) (said : Option Report)
      → o ≡ outcome_of by
      → by ≢ max_passes
      → Ran env (suc left) r (record (took Message Report (env r.passes) r) {
        outcome = o;
        ended_by = by;
        reported = said;
      })
  unfolding sent took
  Ran-now env left r o by said e ne = record {
    count = 1;
    in_limit = omega arith;
    passes = omega arith;
    thread =
        ap (λ t. r.messages ++ t) (sym (append-nil (contribution Message Report (env r.passes))));
    outcome = e;
    exhausted = λ z. absurd (ne z);
  }

  Ran-later :
      (env : ℕ → Pass Message Report) (left : ℕ) (r after : TurnResult Message Report)
      → Ran env left (took Message Report (env r.passes) r) after
      → Ran env (suc left) r after
  unfolding sent took
  Ran-later env left r after h = record {
    count = suc h.count;
    in_limit = omega (arith, h.in_limit);
    passes = omega (arith, h.passes);
    thread =
        h.thread
        ∙ append_assoc r.messages (contribution Message Report (env r.passes))
            (sent env (suc r.passes) h.count);
    outcome = h.outcome;
    exhausted = λ z. ap suc (h.exhausted z);
  }

  follow-Ran :
      (policy : TurnPolicy) (env : ℕ → Pass Message Report) (left : ℕ) (f : Failures)
      (r : TurnResult Message Report) (n : Next Message Report)
      (rest : Failures → TurnResult Message Report)
      → after_pass Message Report policy (env r.passes) f ≡ n
      → ((f' : Failures) → Ran env left (took Message Report (env r.passes) r) (rest f'))
      → Ran env (suc left) r (follow Message Report rest (took Message Report (env r.passes) r) n)
  follow-Ran policy env left f r (stop o by said) rest e ih =
      let s = after_pass-stop policy (env r.passes) f o by said e in
      Ran-now env left r o by said s.0 s.1
  follow-Ran policy env left f r (go_on f') rest e ih = Ran-later env left r (rest f') (ih f')

  run_passes-Ran :
      (left : ℕ) (policy : TurnPolicy) (env : ℕ → Pass Message Report) (f : Failures)
      (r : TurnResult Message Report)
      → Ran env left r (run_passes Message Report left policy env f r)
  unfolding run_passes sent
  run_passes-Ran zero policy env f r = record {
    count = 0;
    in_limit = omega arith;
    passes = omega arith;
    thread = sym (append-nil r.messages);
    outcome = refl;
    exhausted = λ z. refl;
  }
  run_passes-Ran (suc left) policy env f r = elim (Bool-cases p.cancelled_before) [
    | inl out ↦ rw out (record {
      count = 0;
      in_limit = omega arith;
      passes = omega arith;
      thread = sym (append-nil r.messages);
      outcome = refl;
      exhausted = λ z. cc;
    })
    | inr on ↦ elim (Option-cases p.error) [
      | inr (k, wrong) ↦
          simp (on, wrong)
            (Ran-now env left r brain_down model_error (took Message Report p r).reported refl
              (λ z. cc))
      | inl fine ↦ elim (Bool-cases p.cancelled) [
        | inl out ↦
            simp (on, fine, out)
              (Ran-now env left r cut cancel (took Message Report p r).reported refl (λ z. cc))
        | inr live ↦
            simp (on, fine, live)
              (follow-Ran policy env left f r (after_pass Message Report policy p f)
                (λ f'. run_passes Message Report left policy env f' (took Message Report p r)) refl
                (λ f'. run_passes-Ran left policy env f' (took Message Report p r)))
      ]
    ]
  ]
    where
      p : Pass Message Report
      p = env r.passes

  -- Whatever the model and the tools do: a turn makes at most the passes of its policy, and all of
  -- them where that ends it; its outcome is that of the rule that ended it; and its thread is the
  -- thread that it began with and then what each of its passes left, in order.
  pub run_turn-Ran :
      (policy : TurnPolicy) (env : ℕ → Pass Message Report) (messages : List Message)
      → Ran env policy.max_passes
          (begin Message Report messages)
          (run_turn Message Report policy env messages)
  unfolding run_turn
  run_turn-Ran policy env messages =
      run_passes-Ran policy.max_passes policy env (fresh policy.failure_rule)
        (begin Message Report messages)
