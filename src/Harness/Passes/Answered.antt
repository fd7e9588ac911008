-- ===== src/Harness/Passes/Answered.antt =====
-- The reply that a pass leaves has the calls that it answers.
use doll_os.Prelude.Floats.{Floats}
use doll_os.Prelude.{
  ℕ, suc, ◌≡◌, refl, sym, ap, ◌∙◌, Bool, true, false, Option, none, some, List, [], ◌∷◌, ◌++◌, map,
  All, Bool-cases, inl, inr, ◌⊎◌, subst,
}
use doll_os.Harness.ToolCalls.{ToolCall, CallOutcome, World}
use doll_os.Harness.ToolCalls.Answers.{run_tool_calls-answered}
use doll_os.Llm.{Message, End, Event, think_delta, speech_delta, tool_calls_event, end_event}
use doll_os.Llm.Adapter.{
  Wire, ServerAnswer, Failure, Raised, model_error, other_error, calls_event, stream,
}
use doll_os.Llm.Deltas.{IsDelta}
use doll_os.Llm.Contract.{Tail, stream-Contract}
use doll_os.Harness.Passes.{
  PassSoFar, no_pass, OnePass, partial_reply, cut_pass, take_event, read_events, say, end_pass,
  after_stream, one_pass,
}

abbrev pub reply_calls : Option Message → List ToolCall
reply_calls none = []
reply_calls (some m) = m.tool_calls

-- What is answered of a call to the model that failed.
abbrev pub unasked : Option Failure → List CallOutcome → List CallOutcome
unasked none cs = []
unasked (some f) cs = cs

-- The calls of the reply are those that the outcomes answer, in their order, and none are where the
-- call to the model failed.
abbrev pub Answered : {Real : Type 0} → OnePass Real → Type 0
Answered o =
    (map (λ (c : CallOutcome). c.message.tool_call_id) o.outcomes
      ≡ map (λ (c : ToolCall). c.id) (reply_calls o.reply))
    × (unasked o.error o.outcomes ≡ [])

unasked-nil : (f : Option Failure) → unasked f [] ≡ []
unasked-nil none = refl
unasked-nil (some f) = refl

partial_reply-calls : (s t : List ℕ) → reply_calls (partial_reply s t) ≡ []
unfolding partial_reply
partial_reply-calls [] [] = refl
partial_reply-calls (c ∷ s) t = refl
partial_reply-calls [] (c ∷ t) = refl

module _ {Real S : Type 0} (blank : ℕ → Bool) (world : World S) (speaks : Bool) where
  -- The result is there, and is answered.
  abbrev pub Done : Option (OnePass Real × S) → Type 0
  Done r = (o : OnePass Real) × (t : S) × (r ≡ some (o, t)) × Answered o

  cut_pass-Done :
      (f : Option Failure) (c : Bool) (p : PassSoFar Real) (s : S) → Done (some (cut_pass f c p, s))
  unfolding cut_pass
  cut_pass-Done f c p s = (
    cut_pass f c p,
    s,
    refl,
    (ap (map (λ (d : ToolCall). d.id)) (sym (partial_reply-calls _ _)), unasked-nil f),
  )

  say-calls :
      (b : Bool) (text : List ℕ) (p : PassSoFar Real)
      → (say blank world speaks b text p).calls ≡ p.calls
  say-calls false text p = refl
  say-calls true text p = refl

  take_event-calls :
      (ev : Event Real) (p : PassSoFar Real)
      → IsDelta ev
      → (take_event blank world speaks ev p).calls ≡ p.calls
  unfolding take_event
  take_event-calls (think_delta t) p d = refl
  take_event-calls (speech_delta t) p d = say-calls speaks t p
  take_event-calls (tool_calls_event cs) p d = absurd d
  take_event-calls (end_event e) p d = absurd d

  -- What holds of a loop that is interrupted, and of the loop over what stands behind deltas.
  deltas_through :
      (P : Bool × PassSoFar Real → Type 0) (stop : ℕ → Bool) (tail deltas : List (Event Real))
      → All IsDelta deltas
      → ((q : PassSoFar Real) → P (true, q))
      → ((j : ℕ) (q : PassSoFar Real)
          → q.calls ≡ []
          → P (read_events blank world speaks stop j tail q))
      → (i : ℕ) (p : PassSoFar Real) → p.calls ≡ []
      → P (read_events blank world speaks stop i (deltas ++ tail) p)
  unfolding read_events
  deltas_through P stop tail [] d cut on i p n = on i p n
  deltas_through P stop tail (ev ∷ deltas) d cut on i p e = elim (Bool-cases (stop i)) [
    | inl y ↦ rw y (cut p)
    | inr n ↦ rw n (
        deltas_through P stop tail deltas d.1 cut on (suc i) (take_event blank world speaks ev p)
          (take_event-calls ev p d.0 ∙ e))
  ]

  end_pass-Done :
      (p : PassSoFar Real) (e : End Real) (s : S)
      → e.assistant_message.tool_calls ≡ p.calls
      → Done (end_pass blank world speaks p (some e) s)
  unfolding end_pass
  end_pass-Done p e s h = elim (Bool-cases (world.stop s)) [
    | inl y ↦ rw y (
      _,
      _,
      refl,
      (
        (run_tool_calls-answered (record world { stop = λ t. true }) p.calls s).1
            ∙ ap (map (λ (c : ToolCall). c.id)) (sym h),
        refl,
      ),
    )
    | inr n ↦ rw n (
      _,
      _,
      refl,
      (
        (run_tool_calls-answered world p.calls s).1 ∙ ap (map (λ (c : ToolCall). c.id)) (sym h),
        refl,
      ),
    )
  ]

  end-Done :
      (stop : ℕ → Bool) (e : End Real) (s : S) (j : ℕ) (q : PassSoFar Real)
      → e.assistant_message.tool_calls ≡ q.calls
      → Done (
          after_stream blank world speaks none s
            (read_events blank world speaks stop j (end_event e ∷ []) q))
  unfolding read_events take_event
  end-Done stop e s j q h = elim (Bool-cases (stop j)) [
    | inl y ↦ rw y (cut_pass-Done none true q s)
    | inr n ↦ rw n (end_pass-Done (record q { end = some e }) e s h)
  ]

  -- What stands behind the deltas of a stream that does not fail.
  tail-Done :
      (stop : ℕ → Bool) (calls : List ToolCall) (e : End Real) (s : S)
      → e.assistant_message.tool_calls ≡ calls
      → (j : ℕ) (q : PassSoFar Real) → q.calls ≡ []
      → Done (
          after_stream blank world speaks none s
            (read_events blank world speaks stop j (calls_event calls ++ end_event e ∷ []) q))
  unfolding read_events take_event
  tail-Done stop [] e s h j q n = end-Done stop e s j q (h ∙ sym n)
  tail-Done stop (c ∷ calls) e s h j q n = elim (Bool-cases (stop j)) [
    | inl y ↦ rw y (cut_pass-Done none true q s)
    | inr m ↦ rw m (end-Done stop e s (suc j) (record q { calls = c ∷ calls }) h)
  ]

  nil-Done :
      (stop : ℕ → Bool) (f : Failure) (s : S) (j : ℕ) (q : PassSoFar Real)
      → Done (
          after_stream blank world speaks
            (some (model_error f))
            s
            (read_events blank world speaks stop j [] q))
  unfolding read_events
  nil-Done stop f s j q = cut_pass-Done (some f) false q s

module _ {S : Type 0} (floats : Floats) (wire : Wire floats.Real) (blank : ℕ → Bool)
    (world : World S) (speaks : Bool) where
  open floats use {Real}

  -- A pass returns and is answered, or the exception of the stream leaves it.
  abbrev pub Outcome : Option Raised → Option (OnePass Real × S) → Type 0
  Outcome o r =
      ((o : OnePass Real) × (t : S) × (r ≡ some (o, t)) × Answered o)
      ⊎ ((r ≡ none) × (o ≡ some other_error))

  split-Outcome :
      (stop : ℕ → Bool) (o : Option Raised) (deltas tail : List (Event Real)) (s : S)
      → All IsDelta deltas
      → Tail floats wire o deltas tail
      → Outcome o (
          after_stream blank world speaks o s
            (read_events blank world speaks stop 0 (deltas ++ tail) no_pass))
  unfolding read_events
  split-Outcome stop (some (model_error f)) deltas tail s d t = inl (
      deltas_through blank world speaks
        (λ r. Done blank world speaks (after_stream blank world speaks (some (model_error f)) s r))
        stop tail deltas d (λ q. cut_pass-Done blank world speaks none true q s)
        (λ j q n. rw t (nil-Done blank world speaks stop f s j q)) 0 no_pass refl)
  split-Outcome stop (some other_error) deltas tail s d t =
      deltas_through blank world speaks
        (λ r. Outcome (some other_error) (after_stream blank world speaks (some other_error) s r))
        stop tail deltas d (λ q. inl (cut_pass-Done blank world speaks none true q s))
        (λ j q n. rw t (inr (refl, refl))) 0 no_pass refl
  split-Outcome stop none deltas tail s d (calls, e, t, c) = inl (
      deltas_through blank world speaks
        (λ r. Done blank world speaks (after_stream blank world speaks none s r)) stop tail deltas d
        (λ q. cut_pass-Done blank world speaks none true q s)
        (λ j q n. rw t (tail-Done blank world speaks stop calls e s c.calls_of j q n)) 0 no_pass
        refl)

  -- Whatever the server answers, at whichever event the interrupt is seen and whatever the tools do: a
  -- pass returns, and the tool messages behind its reply answer the calls that stand in the reply,
  -- each by its id and in their order, and where the call to the model fails nothing is answered; or
  -- the pass does not return, and then only because the stream raised an exception that is no
  -- `ModelError`, over a chunk that has not the shape it reads.
  pub one_pass-Answered :
      (start : Real) (answer : ServerAnswer Real) (stop : ℕ → Bool) (s : S)
      → Outcome
          (stream floats wire start answer).failure
          (one_pass blank world speaks stop (stream floats wire start answer) s)
  unfolding one_pass
  one_pass-Answered start answer stop s =
      let streamed = stream floats wire start answer in
      let c = stream-Contract floats wire start answer in
      subst
        (λ es. Outcome streamed.failure (
          after_stream blank world speaks streamed.failure s
            (read_events blank world speaks stop 0 es no_pass)))
        (sym c.split) (split-Outcome stop streamed.failure c.deltas c.tail s c.only c.closed)
