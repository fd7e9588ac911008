-- ===== src/Llm/Deltas.antt =====
-- What the chunks of a stream add to the reply, and what the events say of it.
use mathlib.Core.List.{append_assoc, append-nil}
use doll_os.Prelude.{
  ℕ, ◌≡◌, refl, sym, ap, ◌∙◌, List, [], ◌∷◌, ◌++◌, All, arith, subst, Bool, false, ◌||◌, Bool-cases,
  inl, inr,
}
use doll_os.Llm.{
  Fragment, Choice, Reply, Event, think_delta, speech_delta, tool_calls_event, end_event,
}
use doll_os.Llm.Feed.{
  concat, append_given, add_fragments, feed_choice, feed_choices, events_of, thought, said, raises,
  is_broken,
}
use doll_os.Llm.Pieces.{add_fragments-append}

unfoldable pub fragments_of : List Choice → List Fragment
fragments_of [] = []
fragments_of (ch ∷ chs) = ch.tool_calls ++ fragments_of chs

-- What the deltas among the events say and think.
unfoldable pub said_in : {Real : Type 0} → List (Event Real) → List ℕ
said_in [] = []
said_in (speech_delta s ∷ es) = s ++ said_in es
said_in (think_delta s ∷ es) = said_in es
said_in (tool_calls_event cs ∷ es) = said_in es
said_in (end_event e ∷ es) = said_in es

unfoldable pub thought_in : {Real : Type 0} → List (Event Real) → List ℕ
thought_in [] = []
thought_in (think_delta s ∷ es) = s ++ thought_in es
thought_in (speech_delta s ∷ es) = thought_in es
thought_in (tool_calls_event cs ∷ es) = thought_in es
thought_in (end_event e ∷ es) = thought_in es

abbrev pub IsDelta : {Real : Type 0} → Event Real → Type 0
IsDelta (think_delta s) = Unit
IsDelta (speech_delta s) = Unit
IsDelta (tool_calls_event cs) = ⊥
IsDelta (end_event e) = ⊥

concat-append : (xs ys : List (List ℕ)) → concat (xs ++ ys) ≡ concat xs ++ concat ys
unfolding concat
concat-append [] ys = refl
concat-append (x ∷ xs) ys = simp (concat-append xs ys, append_assoc)

concat-append_given :
    (xs : List (List ℕ)) (s : List ℕ) → concat (append_given xs s) ≡ concat xs ++ s
unfolding append_given concat
concat-append_given xs [] = sym (append-nil (concat xs))
concat-append_given xs (c ∷ s) = simp (concat-append xs ((c ∷ s) ∷ []), append-nil)

module _ {Real : Type 0} where
  said_in-append : (es fs : List (Event Real)) → said_in (es ++ fs) ≡ said_in es ++ said_in fs
  unfolding said_in
  said_in-append [] fs = refl
  said_in-append (speech_delta s ∷ es) fs = simp (said_in-append es, append_assoc)
  said_in-append (think_delta s ∷ es) fs = said_in-append es fs
  said_in-append (tool_calls_event cs ∷ es) fs = said_in-append es fs
  said_in-append (end_event e ∷ es) fs = said_in-append es fs

  thought_in-append :
      (es fs : List (Event Real)) → thought_in (es ++ fs) ≡ thought_in es ++ thought_in fs
  unfolding thought_in
  thought_in-append [] fs = refl
  thought_in-append (think_delta s ∷ es) fs = simp (thought_in-append es, append_assoc)
  thought_in-append (speech_delta s ∷ es) fs = thought_in-append es fs
  thought_in-append (tool_calls_event cs ∷ es) fs = thought_in-append es fs
  thought_in-append (end_event e ∷ es) fs = thought_in-append es fs

  -- What a stretch of the stream adds to a reply: the pieces of its calls, and what its events say.
  pub record Read (fs : List Fragment) (r : Reply Real) (es : List (Event Real)) (q : Reply Real)
      : Type 0 where
    pub pieces : q.tools ≡ add_fragments r.tools fs
    pub deltas : All IsDelta es
    pub speech : concat q.speech ≡ concat r.speech ++ said_in es
    pub think : concat q.think ≡ concat r.think ++ thought_in es

module _ (Real : Type 0) where
  pub Read-nil : (r : Reply Real) → Read [] r [] r
  unfolding add_fragments said_in thought_in
  Read-nil r = record {
    pieces = refl;
    deltas = tt;
    speech = sym (append-nil (concat r.speech));
    think = sym (append-nil (concat r.think));
  }

  pub All-append :
      (es fs : List (Event Real)) → All IsDelta es → All IsDelta fs → All IsDelta (es ++ fs)
  All-append [] fs h k = k
  All-append (e ∷ es) fs h k = (h.0, All-append es fs h.1 k)

  pub Read-append :
      {fs gs : List Fragment} {r q p : Reply Real} {es ds : List (Event Real)}
      → Read fs r es q
      → Read gs q ds p
      → Read (fs ++ gs) r (es ++ ds) p
  Read-append {fs} {gs} {r} {q} {p} {es} {ds} h k = record {
    pieces =
        k.pieces ∙ ap (λ t. add_fragments t gs) h.pieces ∙ sym (add_fragments-append r.tools fs gs);
    deltas = All-append es ds h.deltas k.deltas;
    speech = simp (k.speech, h.speech, said_in-append es ds, append_assoc);
    think = simp (k.think, h.think, thought_in-append es ds, append_assoc);
  }

  said_in-said : (s : List ℕ) → said_in (said {Real = Real} s) ≡ s
  unfolding said_in
  said_in-said [] = refl
  said_in-said (c ∷ s) = append-nil (c ∷ s)

  said_in-thought : (s : List ℕ) → said_in (thought {Real = Real} s) ≡ []
  unfolding said_in
  said_in-thought [] = refl
  said_in-thought (c ∷ s) = refl

  thought_in-said : (s : List ℕ) → thought_in (said {Real = Real} s) ≡ []
  unfolding thought_in
  thought_in-said [] = refl
  thought_in-said (c ∷ s) = refl

  thought_in-thought : (s : List ℕ) → thought_in (thought {Real = Real} s) ≡ s
  unfolding thought_in
  thought_in-thought [] = refl
  thought_in-thought (c ∷ s) = append-nil (c ∷ s)

  said-deltas : (s : List ℕ) → All IsDelta (said {Real = Real} s)
  said-deltas [] = tt
  said-deltas (c ∷ s) = (tt, tt)

  thought-deltas : (s : List ℕ) → All IsDelta (thought {Real = Real} s)
  thought-deltas [] = tt
  thought-deltas (c ∷ s) = (tt, tt)

  feed_choice-Read :
      (now : Real) (r : Reply Real) (ch : Choice)
      → Read ch.tool_calls r
          (thought ch.reasoning_content ++ said ch.content)
          (feed_choice now r ch)
  unfolding feed_choice
  feed_choice-Read now r ch = record {
    pieces = refl;
    deltas =
        All-append (thought ch.reasoning_content) (said ch.content)
          (thought-deltas ch.reasoning_content) (said-deltas ch.content);
    speech = simp (
      concat-append_given,
      said_in-append (thought ch.reasoning_content) (said ch.content),
      said_in-said,
      said_in-thought,
    );
    think = simp (
      concat-append_given,
      thought_in-append (thought ch.reasoning_content) (said ch.content),
      thought_in-said,
      thought_in-thought,
      append-nil,
    );
  }

  pub feed_choices-Read :
      (now : Real) (chs : List Choice) (r : Reply Real)
      → raises chs ≡ false
      → Read (fragments_of chs) r (events_of chs) (feed_choices now r chs)
  unfolding fragments_of events_of feed_choices raises
  feed_choices-Read now [] r h = Read-nil r
  feed_choices-Read now (ch ∷ chs) r h = elim (Bool-cases (is_broken ch.ending)) [
    | inl y ↦ absurd (ground (arith, h, y))
    | inr n ↦
        let q = feed_choices now (feed_choice now r ch) chs in
        rw n (
          subst (λ es. Read (ch.tool_calls ++ fragments_of chs) r es q)
            (append_assoc (thought ch.reasoning_content) (said ch.content) (events_of chs))
            (Read-append (feed_choice-Read now r ch)
              (feed_choices-Read now chs (feed_choice now r ch) (rest_whole n h))))
  ]
    where
      rest_whole : {a b : Bool} → a ≡ false → (a || b) ≡ false → b ≡ false
      rest_whole n h = ground (arith, n, h)
