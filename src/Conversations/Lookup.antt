-- ===== src/Conversations/Lookup.antt =====
-- What a lookup finds behind each operation.
use doll_os.Prelude.{
  ℕ, ◌<◌, ◌≡◌, refl, sym, ap, subst, ◌∙◌, String, true, false, none, some, [], ◌∷◌, ◌++◌, ◌==◌, ltb,
  length, member, arith, eq_iff, Bool-cases, Option-cases, inl, inr, ◌⊎◌,
}
use doll_os.Prelude.Dict.{
  get-append, Dict, get, put, remove, has, get-put, get-remove, get-put_self, get-remove_self,
}
use doll_os.Conversations.{Conversation, Builder, evict, move_to_end, touch, store, amend, get_page}
use doll_os.Conversations.Order.{
  keys, Distinct, keys-evict, keys-moved_put, member-evict, Distinct-keep, evict-short,
}

pub get-move_to_end : (d : Dict Conversation) (k j : String) → get (move_to_end k d) j ≡ get d j
unfolding move_to_end
get-move_to_end d k j = elim (Option-cases (get d k)) [
  | inl e ↦ rw (move_to_end, e) refl
  | inr (c, e) ↦
      rw (move_to_end, e)
        (rw (get-append (remove d k) ((k, c) ∷ []) j, get-remove d k j)
          (elim (Bool-cases (j == k)) [
            | inl y ↦ rw y (ground (arith, eq_iff j k, y, e))
            | inr n ↦ rw n (elim (Option-cases (get d j)) [
              | inl z ↦ ground (arith, z, n)
              | inr z ↦ rw z.1 refl
            ])
          ]))
]

pub get-absent : (d : Dict Conversation) (k : String) → member k (keys d) ≡ false → get d k ≡ none
unfolding get
get-absent [] k h = refl
get-absent ((j, c) ∷ d) k h = ground (arith, h, get-absent d k)

pub get-evict :
    (m : ℕ) (d : Dict Conversation) (k : String)
    → Distinct (keys d)
    → (get (evict m d) k ≡ get d k) ⊎ (get (evict m d) k ≡ none)
unfolding evict get
get-evict m [] k h = inl refl
get-evict m ((j, c) ∷ d) k (n, h) = elim (Bool-cases (ltb m (length ((j, c) ∷ d)))) [
  | inr s ↦ rw (evict, s) (inl refl)
  | inl l ↦
      rw (evict, l)
        (elim (Bool-cases (k == j)) [
          | inl y ↦ rw y (
              inr (
                get-absent (evict m d) k (
                  ap (member k) (keys-evict m d)
                  ∙ member-evict m (keys d) k (ground (arith, n, y, eq_iff k j)))))
          | inr n ↦ rw n (get-evict m d k h)
        ])
]

pub other_private :
    (j k : String) → (j == k) ≡ false → (k == "private") ≡ true → (j == "private") ≡ false
other_private j k h p = ground (arith, h, p, eq_iff j k, eq_iff k "private", eq_iff j "private")

pub get-put_other :
    (d : Dict Conversation) (k j : String) (c : Conversation)
    → (j == k) ≡ false
    → get (put d k c) j ≡ get d j
get-put_other d k j c h = rw (get-put d k j c, h) refl

pub there :
    (d : Dict Conversation) (k : String) (c : Conversation) → get d k ≡ some c → has d k ≡ true
there d k c e = rw (has, e) refl

get-one : (k : String) (c : Conversation) → get ((k, c) ∷ []) k ≡ some c
unfolding get
get-one k c = ground (arith, eq_iff k k)

get-tail :
    (j : String) (w : Conversation) (d : Dict Conversation) (k : String)
    → get ((j, w) ∷ d) k ≡ none
    → get d k ≡ none
unfolding get
get-tail j w d k g = ground (arith, g)

get-evict_last :
    (m : ℕ) (d : Dict Conversation) (k : String) (c : Conversation)
    → 0 < m
    → get d k ≡ none
    → get (evict m (d ++ (k, c) ∷ [])) k ≡ some c
unfolding evict
get-evict_last m [] k c h g =
    ap (λ d. get d k) (evict-short m ((k, c) ∷ []) (omega (arith, h))) ∙ get-one k c
get-evict_last m ((j, w) ∷ d) k c h g =
    elim (Bool-cases (ltb m (length ((j, w) ∷ d ++ (k, c) ∷ [])))) [
      | inl l ↦ rw (evict, l) (get-evict_last m d k c h (get-tail j w d k g))
      | inr n ↦ rw (evict, n) (get-append ((j, w) ∷ d) ((k, c) ∷ []) k ∙ rw g (get-one k c))
    ]

module _ (sha256 : String → String) (budget max_channels : ℕ) where
  pub get-touch :
      (k j : String) (b : Builder)
      → get_page sha256 budget max_channels j (touch sha256 budget max_channels k b)
        ≡ get_page sha256 budget max_channels j b
  unfolding touch get_page
  get-touch k j b = elim (Bool-cases (k == "private")) [
    | inl p ↦ rw p refl
    | inr n ↦ rw n (elim (Bool-cases (j == "private")) [
      | inl p ↦ rw p refl
      | inr m ↦ rw m (get-move_to_end b.channels k j)
    ])
  ]

  -- The page of another key stays, or is dropped.
  pub get-store :
      (c : Conversation) (j : String) (b : Builder)
      → (j == c.key) ≡ false
      → Distinct (keys b.channels)
      → (get_page sha256 budget max_channels j (store sha256 budget max_channels c b)
          ≡ get_page sha256 budget max_channels j b)
        ⊎ (get_page sha256 budget max_channels j (store sha256 budget max_channels c b) ≡ none)
  unfolding store get_page
  get-store c j b h d = elim (Bool-cases (c.key == "private")) [
    | inl p ↦ rw (p, other_private j c.key h p) (inl refl)
    | inr n ↦ elim (Bool-cases (j == "private")) [
      | inl p ↦ rw (n, p) (inl refl)
      | inr m ↦
          rw (n, m)
            (elim (get-evict max_channels (move_to_end c.key (put b.channels c.key c)) j (
              subst Distinct (sym (keys-moved_put c.key b.channels c))
                (Distinct-keep c.key (keys b.channels) d))) [
                  | inl e ↦ inl (
                      e
                      ∙ get-move_to_end (put b.channels c.key c) c.key j
                      ∙ get-put_other b.channels c.key j c h)
                  | inr e ↦ inr e
                ])
    ]
  ]

  pub get-amend :
      (k j : String) (c : Conversation) (b : Builder)
      → (j == k) ≡ false
      → get_page sha256 budget max_channels j (amend sha256 budget max_channels k c b)
        ≡ get_page sha256 budget max_channels j b
  unfolding amend get_page
  get-amend k j c b h = elim (Bool-cases (k == "private")) [
    | inl p ↦ rw (p, other_private j k h p) refl
    | inr n ↦ elim (Bool-cases (j == "private")) [
      | inl p ↦ elim (Bool-cases (has b.channels k)) [
        | inl y ↦ rw (n, p, y) refl
        | inr y ↦ rw (n, p, y) refl
      ]
      | inr m ↦ elim (Bool-cases (has b.channels k)) [
        | inl y ↦ rw (n, m, y) (get-put_other b.channels k j c h)
        | inr y ↦ rw (n, m, y) refl
      ]
    ]
  ]

  pub get-amend_self :
      (k : String) (c c' : Conversation) (b : Builder)
      → get_page sha256 budget max_channels k b ≡ some c'
      → get_page sha256 budget max_channels k (amend sha256 budget max_channels k c b) ≡ some c
  unfolding amend get_page
  get-amend_self k c c' b = elim (Bool-cases (k == "private")) [
    | inl p ↦ rw p (λ e. refl)
    | inr n ↦ rw n (λ e. rw (there b.channels k c' e) (get-put_self b.channels k c))
  ]

  pub get-store_self :
      (c : Conversation) (b : Builder)
      → 0 < max_channels
      → get_page sha256 budget max_channels c.key (store sha256 budget max_channels c b) ≡ some c
  unfolding store get_page
  get-store_self c b h = elim (Bool-cases (c.key == "private")) [
    | inl p ↦ rw p refl
    | inr n ↦
        rw (n, move_to_end, get-put_self b.channels c.key c)
          (get-evict_last max_channels (remove (put b.channels c.key c) c.key) c.key c h
            (get-remove_self (put b.channels c.key c) c.key))
  ]
