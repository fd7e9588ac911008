-- ===== src/Harness/Passes/Spoken.antt =====
-- What is spoken of a reply that is not interrupted.
use mathlib.Core.List.{append_assoc}
use doll_os.Prelude.Floats.{Floats}
use doll_os.Prelude.{
  ℕ, suc, ◌≡◌, refl, sym, subst, ap, ◌∙◌, Bool, true, false, Option, none, some, List, [], ◌∷◌,
  ◌++◌, All, keep-append, not,
}
use doll_os.Speech.{feed, flush, feed_all}
use doll_os.Speech.Content.{ink, all_ink, feed_all-ink}
use doll_os.Harness.ToolCalls.{ToolCall, World}
use doll_os.Llm.{Message, End, Event, think_delta, speech_delta, tool_calls_event, end_event}
use doll_os.Llm.Adapter.{Wire, ServerAnswer, Raised, calls_event, stream}
use doll_os.Llm.Deltas.{IsDelta, said_in}
use doll_os.Llm.Contract.{Tail, stream-Contract}
use doll_os.Harness.Passes.{
  PassSoFar, no_pass, OnePass, chunk_max_chars, take_event, read_events, end_pass, after_stream,
  one_pass,
}

-- The texts that the deltas say.
unfoldable texts_of : {Real : Type 0} → List (Event Real) → List (List ℕ)
texts_of [] = []
texts_of (speech_delta s ∷ es) = s ∷ texts_of es
texts_of (think_delta s ∷ es) = texts_of es
texts_of (tool_calls_event cs ∷ es) = texts_of es
texts_of (end_event e ∷ es) = texts_of es

all_ink-texts :
    {Real : Type 0} (blank : ℕ → Bool) (es : List (Event Real))
    → all_ink blank (texts_of es) ≡ ink blank (said_in es)
unfolding texts_of said_in
all_ink-texts blank [] = refl
all_ink-texts blank (speech_delta s ∷ es) =
    ap (λ t. ink blank s ++ t) (all_ink-texts blank es)
    ∙ sym (keep-append (λ c. not (blank c)) s (said_in es))
all_ink-texts blank (think_delta s ∷ es) = all_ink-texts blank es
all_ink-texts blank (tool_calls_event cs ∷ es) = all_ink-texts blank es
all_ink-texts blank (end_event e ∷ es) = all_ink-texts blank es

abbrev pub never : ℕ → Bool
never i = false

module _ {Real S : Type 0} (blank : ℕ → Bool) (world : World S) where
  -- What has been spoken and would be, were the reply to end here.
  abbrev spoken_out : PassSoFar Real → List (List ℕ)
  spoken_out p = p.spoken ++ flush blank p.buf

  abbrev reads : ℕ → List (Event Real) → PassSoFar Real → Bool × PassSoFar Real
  reads i es p = read_events blank world true never i es p

  -- The loop over deltas goes on to what stands behind them, and speaks what the chunker makes of them.
  record Through (i : ℕ) (deltas tail : List (Event Real)) (p : PassSoFar Real) : Type 0 where
    pub index : ℕ
    pub state : PassSoFar Real
    pub goes_on : reads i (deltas ++ tail) p ≡ reads index tail state
    pub speaks :
        spoken_out state ≡ p.spoken ++ feed_all blank chunk_max_chars p.buf (texts_of deltas)

  through :
      (deltas tail : List (Event Real)) (i : ℕ) (p : PassSoFar Real)
      → All IsDelta deltas
      → Through i deltas tail p
  unfolding read_events take_event texts_of feed_all
  through [] tail i p d = record { index = i; state = p; goes_on = refl; speaks = refl }
  through (think_delta t ∷ deltas) tail i p d =
      let r = through deltas tail (suc i) (record p { think = p.think ++ t ∷ [] }) d.1 in
      record { index = r.index; state = r.state; goes_on = r.goes_on; speaks = r.speaks }
  through (speech_delta t ∷ deltas) tail i p d =
      let f = feed blank chunk_max_chars p.buf t in
      let r =
        through deltas tail (suc i)
          (record p { speech = p.speech ++ t ∷ []; spoken = p.spoken ++ f.out; buf = f.buf }) d.1 in
      record {
        index = r.index;
        state = r.state;
        goes_on = r.goes_on;
        speaks =
            r.speaks
            ∙ append_assoc p.spoken f.out (feed_all blank chunk_max_chars f.buf (texts_of deltas));
      }
  through (tool_calls_event cs ∷ deltas) tail i p d = absurd d.0
  through (end_event e ∷ deltas) tail i p d = absurd d.0

  -- The result: a reply, and what is spoken.
  abbrev pub Said : Option (OnePass Real × S) → Type 0
  Said r =
      (o : OnePass Real) × (t : S) × (m : Message) × (r ≡ some (o, t))
      × (o.reply ≡ some m)
      × (all_ink blank o.spoken ≡ ink blank m.content)

  end-Said :
      (calls : List ToolCall) (e : End Real) (s : S) (i : ℕ) (q : PassSoFar Real)
      → world.stop s ≡ false
      → all_ink blank (spoken_out q) ≡ ink blank e.assistant_message.content
      → Said
          (after_stream blank world true none s (reads i (calls_event calls ++ end_event e ∷ []) q))
  unfolding read_events take_event end_pass
  end-Said [] e s i q h k = rw h (_, _, e.assistant_message, refl, refl, k)
  end-Said (c ∷ calls) e s i q h k = rw h (_, _, e.assistant_message, refl, refl, k)

module _ {S : Type 0} (floats : Floats) (wire : Wire floats.Real) (blank : ℕ → Bool)
    (world : World S) where
  open floats use {Real}

  split-Said :
      (o : Option Raised) (deltas tail : List (Event Real)) (s : S)
      → o ≡ none
      → world.stop s ≡ false
      → All IsDelta deltas
      → Tail floats wire o deltas tail
      → Said blank world
          (after_stream blank world true o s (reads blank world 0 (deltas ++ tail) no_pass))
  split-Said (some f) deltas tail s n h d t = cc
  split-Said none deltas tail s n h d (calls, e, t, c) =
      let r = through blank world deltas tail 0 no_pass d in
      let told : all_ink blank (spoken_out blank world r.state)
          ≡ ink blank e.assistant_message.content =
        ap (all_ink blank) r.speaks
        ∙ feed_all-ink blank chunk_max_chars (texts_of deltas) []
        ∙ all_ink-texts blank deltas
        ∙ ap (ink blank) (sym c.content) in
      rw r.goes_on (
        subst
          (λ es.
            Said blank world
              (after_stream blank world true none s (reads blank world r.index es r.state)))
          (sym t) (end-Said blank world calls e s r.index r.state h told))

  -- A pass that speaks, over an answer that does not fail, with no interrupt up to the end of the stream:
  -- it returns and leaves a reply, and up to white space the sentences that were spoken are the content
  -- of the reply, each code point once and in its place.
  pub one_pass-spoken :
      (start : Real) (answer : ServerAnswer Real) (s : S)
      → (stream floats wire start answer).failure ≡ none
      → world.stop s ≡ false
      → (o : OnePass Real) × (t : S) × (m : Message) × (one_pass blank world true never
            (stream floats wire start answer)
            s
          ≡ some (o, t))
        × (o.reply ≡ some m)
        × (all_ink blank o.spoken ≡ ink blank m.content)
  unfolding one_pass
  one_pass-spoken start answer s f h =
      let streamed = stream floats wire start answer in
      let c = stream-Contract floats wire start answer in
      let r = split-Said streamed.failure c.deltas c.tail s f h c.only c.closed in
      (
        r.0,
        r.1,
        r.2,
        ap (λ es. after_stream blank world true streamed.failure s (reads blank world 0 es no_pass))
              c.split
            ∙ r.3,
        r.4,
        r.5,
      )
