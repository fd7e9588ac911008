-- ===== src/Conversations/Pages.antt =====
-- What becomes of a page.
use doll_os.Prelude.{
  ℕ, ◌+◌, ◌≡◌, refl, sym, ap, subst, ◌∙◌, String, false, not, ◌&&◌, Option, none, some, List, [],
  ◌∷◌, ◌++◌, ◌==◌, arith, eq_iff, Bool-cases, Option-cases, inl, inr, ◌⊎◌,
}
use doll_os.Conversations.{
  Message, Conversation, Builder, Turn, touch, store, open_page, begin_turn, amend, run_turn, turns,
  PageReason, page_reason, get_page, fresh_page, after_turn, record_all, record_usage, Usage, user,
  or_zero,
}
use doll_os.Conversations.Recent.{Valid, run_turn-Valid}
use mathlib.Core.List.{append_assoc, append-nil}
use doll_os.Conversations.Order.{Distinct, keys}
use doll_os.Conversations.Lookup.{get-amend_self, get-touch, get-amend, get-store}

record_all-keeps :
    (us : List (Option Usage)) (c : Conversation)
    → ((record_all us c).messages ≡ c.messages)
      × ((record_all us c).epoch ≡ c.epoch)
      × ((record_all us c).tainted ≡ c.tainted)
unfolding record_all record_usage
record_all-keeps [] c = (refl, refl, refl)
record_all-keeps (none ∷ us) c = record_all-keeps us c
record_all-keeps (some u ∷ us) c = elim (Option-cases u.prompt_tokens) [
  | inl e ↦ simp e (record_all-keeps us c)
  | inr (n, e) ↦
      simp e (record_all-keeps us (record c { prior_tokens = n + or_zero u.completion_tokens }))
]

module _ (sha256 : String → String) (budget max_channels : ℕ) where
  open-same :
      (t : Turn) (b : Builder) (c : Conversation)
      → get_page sha256 budget max_channels t.key b ≡ some c
      → (r : Option PageReason) → (open_page sha256 budget max_channels t b (some c) r).0.1 ≡ none
      → get_page sha256 budget max_channels t.key (
          amend sha256 budget max_channels t.key
            (after_turn sha256 budget max_channels t
              (open_page sha256 budget max_channels t b (some c) r).0.0)
            (open_page sha256 budget max_channels t b (some c) r).1)
        ≡ some (after_turn sha256 budget max_channels t c)
  unfolding open_page
  open-same t b c g (some r) e = absurd (ground (arith, e))
  open-same t b c g none e =
      get-amend_self sha256 budget max_channels t.key (after_turn sha256 budget max_channels t c) c
        (touch sha256 budget max_channels t.key b)
        (get-touch sha256 budget max_channels t.key t.key b ∙ g)

  stored-other :
      (t : Turn) (b : Builder) (k : String) (n : ℕ) (a : Conversation)
      → (k == t.key) ≡ false
      → Distinct (keys b.channels)
      → (get_page sha256 budget max_channels k (
            amend sha256 budget max_channels t.key a
              (store sha256 budget max_channels (fresh_page sha256 budget max_channels t n) b))
          ≡ get_page sha256 budget max_channels k b)
        ⊎ (get_page sha256 budget max_channels k (
              amend sha256 budget max_channels t.key a
                (store sha256 budget max_channels (fresh_page sha256 budget max_channels t n) b))
            ≡ none)
  unfolding fresh_page
  stored-other t b k n a h d =
      let page = fresh_page sha256 budget max_channels t n in
      rw
        (get-amend sha256 budget max_channels t.key k a (store sha256 budget max_channels page b) h)
        (get-store sha256 budget max_channels page k b h d)

  open-other :
      (t : Turn) (b : Builder) (k : String) (o : Option Conversation) (r : Option PageReason)
      → (k == t.key) ≡ false
      → Distinct (keys b.channels)
      → (get_page sha256 budget max_channels k (
            amend sha256 budget max_channels t.key
              (after_turn sha256 budget max_channels t
                (open_page sha256 budget max_channels t b o r).0.0)
              (open_page sha256 budget max_channels t b o r).1)
          ≡ get_page sha256 budget max_channels k b)
        ⊎ (get_page sha256 budget max_channels k (
              amend sha256 budget max_channels t.key
                (after_turn sha256 budget max_channels t
                  (open_page sha256 budget max_channels t b o r).0.0)
                (open_page sha256 budget max_channels t b o r).1)
            ≡ none)
  unfolding open_page
  open-other t b k (some c) none h d = inl (
      get-amend sha256 budget max_channels t.key k _ _ h
      ∙ get-touch sha256 budget max_channels t.key k b)
  open-other t b k none r h d = stored-other t b k 1 _ h d
  open-other t b k (some c) (some r) h d = stored-other t b k (c.epoch + 1) _ h d

  -- What a turn on the page's own key leaves, where the page is not new.
  run_turn-same :
      (t : Turn) (b : Builder) (c : Conversation)
      → get_page sha256 budget max_channels t.key b ≡ some c
      → (run_turn sha256 budget max_channels t b).0.1 ≡ none
      → get_page sha256 budget max_channels t.key (run_turn sha256 budget max_channels t b).1
        ≡ some (after_turn sha256 budget max_channels t c)
  unfolding run_turn begin_turn
  run_turn-same t b c g = rw (begin_turn, g) (open-same t b c g _)

  run_turn-other :
      (t : Turn) (b : Builder) (k : String)
      → (k == t.key) ≡ false
      → Distinct (keys b.channels)
      → (get_page sha256 budget max_channels k (run_turn sha256 budget max_channels t b).1
          ≡ get_page sha256 budget max_channels k b)
        ⊎ (get_page sha256 budget max_channels k (run_turn sha256 budget max_channels t b).1 ≡ none)
  unfolding run_turn begin_turn
  run_turn-other t b k h d =
      open-other t b k (get_page sha256 budget max_channels t.key b)
        (page_reason sha256 budget max_channels (sha256 t.tools_json) (sha256 t.system_text)
          (get_page sha256 budget max_channels t.key b))
        h d

  -- A conversation goes on: it only grew, on the same page, and has not lost its taint.
  abbrev pub Extends : Conversation → Conversation → Type 0
  Extends c c' =
      (more : List Message) × (c'.messages ≡ c.messages ++ more)
      × (c'.epoch ≡ c.epoch)
      × ((c.tainted && not c'.tainted) ≡ false)

  abbrev pub Continues : Conversation → Option Conversation → Type 0
  Continues c none = Unit
  Continues c (some c') = Extends c c'

  -- No turn opens a new page for the key.
  abbrev pub Kept : String → List Turn → Builder → Type 0
  Kept k [] b = Unit
  Kept k (t ∷ ts) b =
      (t.key ≡ k → (run_turn sha256 budget max_channels t b).0.1 ≡ none)
      × Kept k ts (run_turn sha256 budget max_channels t b).1

  after-Extends :
      (t : Turn) (c c' : Conversation)
      → Extends c c'
      → Extends c (after_turn sha256 budget max_channels t c')
  unfolding after_turn
  after-Extends t c c' (more, m, e, n) =
      let (rm, re, rt) =
        record_all-keeps t.usages
          (record c' { messages = c'.messages ++ user t.delta ∷ t.appended }) in
      (
        more ++ user t.delta ∷ t.appended,
        rm
            ∙ ap (λ ms. ms ++ user t.delta ∷ t.appended) m
            ∙ append_assoc c.messages more (user t.delta ∷ t.appended),
        re ∙ e,
        ground (arith, rt, n),
      )

  reason-none :
      (t : Turn) (b : Builder)
      → get_page sha256 budget max_channels t.key b ≡ none
      → (run_turn sha256 budget max_channels t b).0.1 ≡ none
      → ⊥
  unfolding run_turn begin_turn page_reason open_page
  reason-none t b g = rw (begin_turn, g) (λ e. ground (arith, e))

  same-Continues :
      (t : Turn) (b : Builder) (c : Conversation)
      → (run_turn sha256 budget max_channels t b).0.1 ≡ none
      → Continues c (get_page sha256 budget max_channels t.key b)
      → Continues c
          (get_page sha256 budget max_channels t.key (run_turn sha256 budget max_channels t b).1)
  same-Continues t b c h x = elim (Option-cases (get_page sha256 budget max_channels t.key b)) [
    | inl g ↦ absurd (reason-none t b g h)
    | inr (c', g) ↦
        subst (Continues c) (sym (run_turn-same t b c' g h))
          (after-Extends t c c' (subst (Continues c) g x))
  ]

  run_turn-Continues :
      (t : Turn) (b : Builder) (k : String) (c : Conversation)
      → Valid sha256 budget max_channels b
      → (t.key ≡ k → (run_turn sha256 budget max_channels t b).0.1 ≡ none)
      → Continues c (get_page sha256 budget max_channels k b)
      → Continues c
          (get_page sha256 budget max_channels k (run_turn sha256 budget max_channels t b).1)
  run_turn-Continues t b k c v h x = elim (Bool-cases (t.key == k)) [
    | inl y ↦
        let e = (eq_iff t.key k).0 y in
        subst
          (λ j.
            Continues c
              (get_page sha256 budget max_channels j (run_turn sha256 budget max_channels t b).1))
          e
          (same-Continues t b c (h e)
            (subst (λ j. Continues c (get_page sha256 budget max_channels j b)) (sym e) x))
    | inr n ↦
        elim (run_turn-other t b k (ground (arith, n, eq_iff t.key k, eq_iff k t.key)) v.distinct) [
          | inl g ↦ subst (Continues c) (sym g) x
          | inr g ↦ subst (Continues c) (sym g) tt
        ]
  ]

  turns-from :
      (ts : List Turn) (b : Builder) (k : String) (c : Conversation)
      → Valid sha256 budget max_channels b
      → Continues c (get_page sha256 budget max_channels k b)
      → Kept k ts b
      → Continues c (get_page sha256 budget max_channels k (turns sha256 budget max_channels ts b))
  unfolding turns
  turns-from [] b k c v x kept = x
  turns-from (t ∷ ts) b k c v x (h, kept) =
      turns-from ts (run_turn sha256 budget max_channels t b).1 k c
        (run_turn-Valid sha256 budget max_channels t b v) (run_turn-Continues t b k c v h x) kept

  -- As long as no turn opens a new page for a key, whatever turns other keys have: its conversation is
  -- dropped from memory, or what it had stands at its start, on the same page, and it is tainted if it
  -- was.
  pub turns-continue :
      (ts : List Turn) (b : Builder) (k : String) (c : Conversation)
      → Valid sha256 budget max_channels b
      → get_page sha256 budget max_channels k b ≡ some c
      → Kept k ts b
      → Continues c (get_page sha256 budget max_channels k (turns sha256 budget max_channels ts b))
  turns-continue ts b k c v g kept =
      turns-from ts b k c v
        (subst (Continues c) (sym g) ([], sym (append-nil c.messages), refl, ground arith)) kept
