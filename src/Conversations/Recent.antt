-- ===== src/Conversations/Recent.antt =====
-- Which conversations of channels are in memory.
use doll_os.Prelude.{
  ℕ, ◌+◌, ◌≤◌, ◌≡◌, refl, sym, ap, ◌∙◌, String, not, Option, none, some, List, [], ◌∷◌, ◌++◌, ◌==◌,
  length, keep, if◌then◌else◌, Bool-cases, inl, inr, subst, drop, ◌-◌,
}
use doll_os.Prelude.Dict.{put, has}
use doll_os.Conversations.{
  Conversation, Builder, Turn, evict, move_to_end, touch, store, open_page, begin_turn, amend,
  run_turn, turns, PageReason, get_page, fresh_page,
}
use doll_os.Conversations.Order.{
  keys, Distinct, moved-short, keys-evict, keys-put, Distinct-keep, evict-drop, evict-short,
  length-evict_le, keys-moved_put, Distinct-evict, keys-move_to_end, evict-use,
}

-- A channel is used: it is the last one now.

-- A channel is used: it is the last one now.
unfoldable pub use_channel : String → List String → List String
use_channel k ks = if k == "private" then ks else keep (λ j. not (k == j)) ks ++ k ∷ []

-- The channels of the turns so far, each at its last use.
unfoldable pub uses : List Turn → List String → List String
unfolding use_channel
uses [] ks = ks
uses (t ∷ ts) ks = uses ts (use_channel t.key ks)

module _ (sha256 : String → String) (budget max_channels : ℕ) where
  touch-keys :
      (k : String) (b : Builder) (c : Conversation) (ks : List String)
      → get_page sha256 budget max_channels k b ≡ some c
      → keys b.channels ≡ evict max_channels ks
      → Distinct ks
      → keys (touch sha256 budget max_channels k b).channels ≡ evict max_channels (use_channel k ks)
  unfolding touch use_channel get_page
  touch-keys k b c ks = elim (Bool-cases (k == "private")) [
    | inl p ↦ rw p (λ g h d. h)
    | inr n ↦ rw n (λ g h d.
        let short =
          moved-short k b.channels c g
            (subst (λ xs. length xs ≤ max_channels) (sym h) (length-evict_le max_channels ks)) in
        rw (keys-move_to_end k b.channels c g) (
          sym (evict-short max_channels _ short)
          ∙ subst
              (λ xs.
                evict max_channels (keep (λ j. not (k == j)) xs ++ k ∷ [])
                ≡ evict max_channels (keep (λ j. not (k == j)) ks ++ k ∷ []))
              (sym h) (evict-use max_channels k ks d)))
  ]

  store-keys :
      (c : Conversation) (b : Builder) (ks : List String)
      → keys b.channels ≡ evict max_channels ks
      → Distinct ks
      → keys (store sha256 budget max_channels c b).channels
        ≡ evict max_channels (use_channel c.key ks)
  unfolding store use_channel
  store-keys c b ks = elim (Bool-cases (c.key == "private")) [
    | inl p ↦ rw p (λ h d. h)
    | inr n ↦ rw n (λ h d.
        keys-evict max_channels (move_to_end c.key (put b.channels c.key c))
        ∙ ap (evict max_channels) (keys-moved_put c.key b.channels c)
        ∙ subst
            (λ xs.
              evict max_channels (keep (λ j. not (c.key == j)) xs ++ c.key ∷ [])
              ≡ evict max_channels (keep (λ j. not (c.key == j)) ks ++ c.key ∷ []))
            (sym h) (evict-use max_channels c.key ks d))
  ]

  pub amend-keys :
      (k : String) (c : Conversation) (b : Builder)
      → keys (amend sha256 budget max_channels k c b).channels ≡ keys b.channels
  unfolding amend
  amend-keys k c b = elim (Bool-cases (k == "private")) [
    | inl p ↦ rw p refl
    | inr n ↦ rw n (elim (Bool-cases (has b.channels k)) [
      | inl h ↦ rw h (keys-put b.channels k c h)
      | inr m ↦ rw m refl
    ])
  ]

  open-keys :
      (t : Turn) (b : Builder) (o : Option Conversation) (r : Option PageReason) (ks : List String)
      → get_page sha256 budget max_channels t.key b ≡ o
      → keys b.channels ≡ evict max_channels ks
      → Distinct ks
      → keys (open_page sha256 budget max_channels t b o r).1.channels
        ≡ evict max_channels (use_channel t.key ks)
  unfolding open_page fresh_page
  open-keys t b none r ks g h d = store-keys (fresh_page sha256 budget max_channels t 1) b ks h d
  open-keys t b (some c) (some r) ks g h d =
      store-keys (fresh_page sha256 budget max_channels t (c.epoch + 1)) b ks h d
  open-keys t b (some c) none ks g h d = touch-keys t.key b c ks g h d

  run_turn-keys :
      (t : Turn) (b : Builder) (ks : List String)
      → keys b.channels ≡ evict max_channels ks
      → Distinct ks
      → keys (run_turn sha256 budget max_channels t b).1.channels
        ≡ evict max_channels (use_channel t.key ks)
  unfolding run_turn begin_turn
  run_turn-keys t b ks h d = amend-keys _ _ _ ∙ open-keys t b _ _ ks refl h d

  Distinct-use : (k : String) (ks : List String) → Distinct ks → Distinct (use_channel k ks)
  unfolding use_channel
  Distinct-use k ks d = elim (Bool-cases (k == "private")) [
    | inl p ↦ rw p d
    | inr n ↦ rw n (Distinct-keep k ks d)
  ]

  turns-from :
      (ts : List Turn) (b : Builder) (ks : List String)
      → keys b.channels ≡ evict max_channels ks
      → Distinct ks
      → keys (turns sha256 budget max_channels ts b).channels ≡ evict max_channels (uses ts ks)
  unfolding turns uses
  turns-from [] b ks h d = h
  turns-from (t ∷ ts) b ks h d =
      turns-from ts (run_turn sha256 budget max_channels t b).1 (use_channel t.key ks)
        (run_turn-keys t b ks h d) (Distinct-use t.key ks d)

  -- Whatever the turns from an empty memory: the channels whose conversation is in memory are, in the
  -- order of their last turn, the last ones of the channels that had a turn, as many as there may be.
  pub turns-recent :
      (ts : List Turn) (b : Builder)
      → b.channels ≡ []
      → keys (turns sha256 budget max_channels ts b).channels
        ≡ drop (length (uses ts []) - max_channels) (uses ts [])
  unfolding evict
  turns-recent ts b e = turns-from ts b [] (ap keys e) tt ∙ evict-drop max_channels (uses ts [])

  -- The channels are distinct, and not too many.
  pub record Valid (b : Builder) : Type 0 where
    pub distinct : Distinct (keys b.channels)
    pub few : length (keys b.channels) ≤ max_channels

  pub run_turn-Valid :
      (t : Turn) (b : Builder) → Valid b → Valid (run_turn sha256 budget max_channels t b).1
  run_turn-Valid t b v =
      let ks = keys b.channels in
      let e = run_turn-keys t b ks (sym (evict-short max_channels ks v.few)) v.distinct in
      record {
        distinct =
            subst Distinct (sym e) (
              Distinct-evict max_channels (use_channel t.key ks)
                (Distinct-use t.key ks v.distinct));
        few =
            subst (λ xs. length xs ≤ max_channels) (sym e)
              (length-evict_le max_channels (use_channel t.key ks));
      }
