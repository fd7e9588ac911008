-- ===== src/Batches/Steps.antt =====
-- What one operation does to the items of a channel and to the timers.
use mathlib.Core.Option
use mathlib.Core.List.{append_assoc, append-nil}
use doll_os.Prelude.{
  ◌≡◌, refl, sym, ap, ◌∙◌, String, Bool, ◌||◌, Option, List, [], ◌∷◌, ◌++◌, ◌==◌, eq_iff, arith,
  if◌then◌else◌, keep, keep-append, member, Bool-cases, inl, inr,
}
use doll_os.Prelude.Dict.{remove, has, bucket, bucket-put, bucket-remove, has-put, has-remove}
use doll_os.Batches.{Accumulator, open_batch, push, add_item, send, flush_batch, fire, flush_each}

abbrev pub concat : {A : Type 0} → List (List A) → List A
concat [] = []
concat (xs ∷ xss) = xs ++ concat xss

concat-append :
    {A : Type 0} (xss : List (List A)) (xs : List A) → concat (xss ++ xs ∷ []) ≡ concat xss ++ xs
concat-append [] xs = append-nil xs
concat-append (ys ∷ xss) xs =
    ap (λ t. ys ++ t) (concat-append xss xs) ∙ sym (append_assoc ys (concat xss) xs)

module _ (Item Window : Type 0) where
  module _ (channel : Item → String) where
    -- Of a channel: what was sent, and then what waits.
    abbrev pub through : String → Accumulator Item Window → List Item
    through k a = keep (λ i. k == channel i) (concat a.sent) ++ bucket a.pending k

    -- A batch has items of its own channel only, and has a timer exactly if it is there.
    pub record Sound (a : Accumulator Item Window) : Type 0 where
      pub own :
          (k c : String)
          → keep (λ i. k == channel i) (bucket a.pending c)
            ≡ (if k == c then bucket a.pending c else [])
      pub timed : (c : String) → has a.timers c ≡ has a.pending c

    pending-send :
        (xs : List Item) (a : Accumulator Item Window) → (send Item Window xs a).pending ≡ a.pending
    unfolding send
    pending-send [] a = refl
    pending-send (x ∷ xs) a = refl

    timers-send :
        (xs : List Item) (a : Accumulator Item Window) → (send Item Window xs a).timers ≡ a.timers
    unfolding send
    timers-send [] a = refl
    timers-send (x ∷ xs) a = refl

    sent-send :
        (xs : List Item) (a : Accumulator Item Window)
        → concat (send Item Window xs a).sent ≡ concat a.sent ++ xs
    unfolding send
    sent-send [] a = sym (append-nil (concat a.sent))
    sent-send (x ∷ xs) a = concat-append a.sent (x ∷ xs)

    open_batch-bucket :
        (c : String) (w : Option Window) (a : Accumulator Item Window) (k : String)
        → bucket (open_batch Item Window c w a).pending k ≡ bucket a.pending k
    unfolding open_batch
    open_batch-bucket c w a k = elim (Bool-cases (has a.pending c)) [
      | inl y ↦ rw y refl
      | inr n ↦ rw n (bucket-put a.pending c k [] ∙ ground (arith, eq_iff k c))
    ]

    add_item-bucket :
        (c : String) (item : Item) (w : Option Window) (a : Accumulator Item Window) (k : String)
        → bucket (add_item Item Window c item w a).pending k
          ≡ bucket a.pending k ++ (if k == c then item ∷ [] else [])
    unfolding add_item push
    add_item-bucket c item w a k =
        let o = open_batch Item Window c w a in
        bucket-put o.pending c k (bucket o.pending c ++ item ∷ []) ∙ (elim (Bool-cases (k == c)) [
          | inl y ↦ rw y (
              ap (λ t. t ++ item ∷ [])
                (open_batch-bucket c w a c ∙ ap (bucket a.pending) (sym ((eq_iff k c).0 y))))
          | inr n ↦ rw n (open_batch-bucket c w a k ∙ sym (append-nil (bucket a.pending k)))
        ])

    flush_batch-bucket :
        (c : String) (a : Accumulator Item Window) (k : String)
        → bucket (flush_batch Item Window c a).pending k
          ≡ (if k == c then [] else bucket a.pending k)
    unfolding flush_batch
    flush_batch-bucket c a k =
        ap (λ d. bucket d k) (pending-send (bucket a.pending c) _) ∙ bucket-remove a.pending c k

    flush_batch-sent :
        (c : String) (a : Accumulator Item Window)
        → concat (flush_batch Item Window c a).sent ≡ concat a.sent ++ bucket a.pending c
    unfolding flush_batch
    flush_batch-sent c a = sent-send (bucket a.pending c) _

    or_twice : (x y : Bool) → (x || y) ≡ (x || (x || y))
    or_twice x y = ground arith

    open_batch-timed :
        (c : String) (w : Option Window) (a : Accumulator Item Window) (k : String)
        → ((j : String) → has a.timers j ≡ has a.pending j)
        → has (open_batch Item Window c w a).timers k
          ≡ (k == c || has (open_batch Item Window c w a).pending k)
    unfolding open_batch
    open_batch-timed c w a k h = elim (Bool-cases (has a.pending c)) [
      | inl y ↦ rw y (
          h k ∙ (elim (Bool-cases (k == c)) [
            | inl e ↦ rw e (ap (has a.pending) ((eq_iff k c).0 e) ∙ y)
            | inr ne ↦ rw ne refl
          ]))
      | inr n ↦ rw n (
          has-put a.timers c k (Option.get_or w a.window_s)
          ∙ ap (λ b. k == c || b) (h k)
          ∙ or_twice (k == c) (has a.pending k)
          ∙ ap (λ b. k == c || b) (sym (has-put a.pending c k [])))
    ]

    add_item-timed :
        (c : String) (item : Item) (w : Option Window) (a : Accumulator Item Window) (k : String)
        → ((j : String) → has a.timers j ≡ has a.pending j)
        → has (add_item Item Window c item w a).timers k
          ≡ has (add_item Item Window c item w a).pending k
    unfolding add_item push open_batch
    add_item-timed c item w a k h =
        let o = open_batch Item Window c w a in
        open_batch-timed c w a k h ∙ sym (has-put o.pending c k (bucket o.pending c ++ item ∷ []))

    flush_batch-timed :
        (c : String) (a : Accumulator Item Window) (k : String)
        → has a.timers k ≡ has a.pending k
        → has (flush_batch Item Window c a).timers k ≡ has (flush_batch Item Window c a).pending k
    unfolding flush_batch
    flush_batch-timed c a k h =
        rw
          (
            timers-send (bucket a.pending c)
                (record a { pending = remove a.pending c; timers = remove a.timers c }),
            pending-send (bucket a.pending c)
                (record a { pending = remove a.pending c; timers = remove a.timers c }),
            has-remove a.timers c k,
            has-remove a.pending c k,
            h,
          )
          refl

    keep-own :
        (k c b : String) (item : Item)
        → channel item ≡ c
        → keep (λ i. k == channel i) (if b == c then item ∷ [] else [])
          ≡ (if k == b then (if b == c then item ∷ [] else []) else [])
    keep-own k c b item h = elim (Bool-cases (b == c)) [
      | inl y ↦ rw (y, h, sym ((eq_iff b c).0 y)) refl
      | inr n ↦ rw n (ground arith)
    ]

    pub Sound-add_item :
        (c : String) (item : Item) (w : Option Window) (a : Accumulator Item Window)
        → channel item ≡ c
        → Sound a
        → Sound (add_item Item Window c item w a)
    Sound-add_item c item w a h s = record {
      own = λ k b.
          rw
            (
              add_item-bucket c item w a b,
              keep-append (λ i. k == channel i) (bucket a.pending b)
                  (if b == c then item ∷ [] else []),
              s.own k b,
              keep-own k c b item h,
            )
            (ground arith);
      timed = λ k. add_item-timed c item w a k s.timed;
    }

    Sound-flush_batch :
        (c : String) (a : Accumulator Item Window) → Sound a → Sound (flush_batch Item Window c a)
    Sound-flush_batch c a s = record {
      own = λ k b.
          rw (flush_batch-bucket c a b)
            (elim (Bool-cases (b == c)) [ inl y ↦ rw y (ground arith) | inr n ↦ rw n (s.own k b) ]);
      timed = λ k. flush_batch-timed c a k (s.timed k);
    }

    sent-add_item :
        (c : String) (item : Item) (w : Option Window) (a : Accumulator Item Window)
        → (add_item Item Window c item w a).sent ≡ a.sent
    unfolding add_item push open_batch
    sent-add_item c item w a = elim (Bool-cases (has a.pending c)) [
      | inl y ↦ rw y refl
      | inr n ↦ rw n refl
    ]

    pub through-add_item :
        (c : String) (item : Item) (w : Option Window) (a : Accumulator Item Window) (k : String)
        → through k (add_item Item Window c item w a)
          ≡ through k a ++ (if k == c then item ∷ [] else [])
    through-add_item c item w a k =
        rw (sent-add_item c item w a, add_item-bucket c item w a k)
          (sym (
            append_assoc (keep (λ i. k == channel i) (concat a.sent)) (bucket a.pending k)
              (if k == c then item ∷ [] else [])))

    through-flush_batch :
        (c : String) (a : Accumulator Item Window) (k : String)
        → Sound a
        → through k (flush_batch Item Window c a) ≡ through k a
    through-flush_batch c a k s =
        rw
          (
            flush_batch-sent c a,
            keep-append (λ i. k == channel i) (concat a.sent) (bucket a.pending c),
            s.own k c,
            flush_batch-bucket c a k,
          )
          (elim (Bool-cases (k == c)) [
            | inl y ↦ rw y (
                append-nil (keep (λ i. k == channel i) (concat a.sent) ++ bucket a.pending c)
                ∙ ap (λ x. keep (λ i. k == channel i) (concat a.sent) ++ bucket a.pending x)
                    (sym ((eq_iff k c).0 y)))
            | inr n ↦ rw n (
                ap (λ t. t ++ bucket a.pending k)
                  (append-nil (keep (λ i. k == channel i) (concat a.sent))))
          ])

    pub Sound-fire :
        (c : String) (a : Accumulator Item Window) → Sound a → Sound (fire Item Window c a)
    unfolding fire
    Sound-fire c a s = elim (Bool-cases (has a.timers c)) [
      | inl y ↦ rw y (Sound-flush_batch c a s)
      | inr n ↦ rw n s
    ]

    pub through-fire :
        (c : String) (a : Accumulator Item Window) (k : String)
        → Sound a
        → through k (fire Item Window c a) ≡ through k a
    unfolding fire
    through-fire c a k s = elim (Bool-cases (has a.timers c)) [
      | inl y ↦ rw y (through-flush_batch c a k s)
      | inr n ↦ rw n refl
    ]

    pub flush_each-all :
        (cs : List String) (a : Accumulator Item Window)
        → Sound a
        → Sound (flush_each Item Window cs a)
          × ((k : String) → through k (flush_each Item Window cs a) ≡ through k a)
          × ((k : String)
              → bucket (flush_each Item Window cs a).pending k
                ≡ (if member k cs then [] else bucket a.pending k))
    unfolding flush_each
    flush_each-all [] a s = (s, λ k. refl, λ k. refl)
    flush_each-all (c ∷ cs) a s =
        let r = flush_each-all cs (flush_batch Item Window c a) (Sound-flush_batch c a s) in
        (
          r.0,
          λ k. r.1 k ∙ through-flush_batch c a k s,
          λ k. rw (r.2 k, flush_batch-bucket c a k) (ground arith),
        )
