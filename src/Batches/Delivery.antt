-- ===== src/Batches/Delivery.antt =====
-- Every item of a channel is sent once and in its order, or still waits with a timer.
use mathlib.Core.List.{append_assoc, append-nil}
use doll_os.Prelude.{
  ◌≡◌, refl, sym, ap, ◌∙◌, String, Option, List, [], ◌∷◌, ◌++◌, ◌==◌, arith, if◌then◌else◌, keep,
  member, map,
}
use doll_os.Prelude.Dict.{Dict, get, has, bucket}
use doll_os.Batches.{Accumulator, add_item, fire, flush_all}
use doll_os.Batches.Steps.{
  concat, through, Sound, Sound-add_item, through-add_item, Sound-fire, through-fire,
  flush_each-all,
}

-- What happens: an item is added, a timer runs out, or all is flushed.
pub data Event (Item Window : Type 0) : Type 0 where
  added : String → Item → Option Window → Event Item Window
  timed_out : String → Event Item Window
  flushed : Event Item Window

module _ (Item Window : Type 0) where
  unfoldable pub step : Event Item Window → Accumulator Item Window → Accumulator Item Window
  unfolding add_item fire flush_all
  step (added c item w) a = add_item Item Window c item w a
  step (timed_out c) a = fire Item Window c a
  step flushed a = flush_all Item Window a

  unfoldable pub run : List (Event Item Window) → Accumulator Item Window → Accumulator Item Window
  unfolding step
  run [] a = a
  run (e ∷ es) a = run es (step e a)

  -- The items that are added on a channel.
  abbrev pub items_of : String → List (Event Item Window) → List Item
  items_of k [] = []
  items_of k (added c item w ∷ es) = (if k == c then item ∷ [] else []) ++ items_of k es
  items_of k (timed_out c ∷ es) = items_of k es
  items_of k (flushed ∷ es) = items_of k es

  module _ (channel : Item → String) where
    -- An item is added on its own channel.
    abbrev pub AllOwn : List (Event Item Window) → Type 0
    AllOwn [] = Unit
    AllOwn (added c item w ∷ es) = (channel item ≡ c) × AllOwn es
    AllOwn (timed_out c ∷ es) = AllOwn es
    AllOwn (flushed ∷ es) = AllOwn es

    bucket-keys :
        (d : Dict (List Item)) (k : String)
        → (if member k (map (λ e. e.0) d) then [] else bucket d k) ≡ []
    unfolding get
    bucket-keys [] k = refl
    bucket-keys ((j, xs) ∷ d) k = ground (arith, bucket-keys d k)

    step-through :
        (e : Event Item Window) (es : List (Event Item Window)) (a : Accumulator Item Window)
        → AllOwn (e ∷ es)
        → Sound Item Window channel a
        → Sound Item Window channel (step e a)
          × ((k : String)
              → through Item Window channel k (step e a) ++ items_of k es
                ≡ through Item Window channel k a ++ items_of k (e ∷ es))
          × AllOwn es
    unfolding step flush_all
    step-through (added c item w) es a h s = (
      Sound-add_item Item Window channel c item w a h.0 s,
      λ k.
          ap (λ t. t ++ items_of k es) (through-add_item Item Window channel c item w a k)
          ∙ append_assoc (through Item Window channel k a) (if k == c then item ∷ [] else [])
              (items_of k es),
      h.1,
    )
    step-through (timed_out c) es a h s = (
      Sound-fire Item Window channel c a s,
      λ k. ap (λ t. t ++ items_of k es) (through-fire Item Window channel c a k s),
      h,
    )
    step-through flushed es a h s =
        let r = flush_each-all Item Window channel (map (λ e. e.0) a.pending) a s in
        (r.0, λ k. ap (λ t. t ++ items_of k es) (r.1 k), h)

    -- Whatever is added, runs out and is flushed in any order, where every item is added on its own
    -- channel: of each channel, what was sent and then what waits is what there was and then what
    -- was added, each item once and in its order; and the channels with a batch that waits are the
    -- ones with a timer.
    pub run-through :
        (es : List (Event Item Window)) (a : Accumulator Item Window)
        → AllOwn es
        → Sound Item Window channel a
        → ((k : String)
            → through Item Window channel k (run es a)
              ≡ through Item Window channel k a ++ items_of k es)
          × ((k : String) → has (run es a).timers k ≡ has (run es a).pending k)
    unfolding run
    run-through [] a h s = (λ k. sym (append-nil (through Item Window channel k a)), s.timed)
    run-through (e ∷ es) a h s =
        let r = step-through e es a h s in
        let rest = run-through es (step e a) r.2 r.0 in (λ k. rest.0 k ∙ r.1 k, rest.1)

    run-Sound :
        (es : List (Event Item Window)) (a : Accumulator Item Window)
        → AllOwn es
        → Sound Item Window channel a
        → Sound Item Window channel (run es a)
    unfolding run
    run-Sound [] a h s = s
    run-Sound (e ∷ es) a h s = let r = step-through e es a h s in run-Sound es (step e a) r.2 r.0

    flush_all-bucket :
        (a : Accumulator Item Window)
        → Sound Item Window channel a
        → (k : String) → bucket (flush_all Item Window a).pending k ≡ []
    unfolding flush_all
    flush_all-bucket a s k =
        (flush_each-all Item Window channel (map (λ e. e.0) a.pending) a s).2 k
        ∙ bucket-keys a.pending k

    flush_all-through :
        (a : Accumulator Item Window)
        → Sound Item Window channel a
        → (k : String)
        → through Item Window channel k (flush_all Item Window a) ≡ through Item Window channel k a
    unfolding flush_all
    flush_all-through a s k =
        (flush_each-all Item Window channel (map (λ e. e.0) a.pending) a s).1 k

    -- Whatever is added, runs out and is flushed in any order, where every item is added on its own
    -- channel: behind a last `flush_all` all that was added on a channel has been sent, each item
    -- once and in its order.
    pub flush_all-delivers :
        (es : List (Event Item Window)) (a : Accumulator Item Window) (k : String)
        → AllOwn es
        → Sound Item Window channel a
        → keep (λ i. k == channel i) (concat (flush_all Item Window (run es a)).sent)
          ≡ through Item Window channel k a ++ items_of k es
    flush_all-delivers es a k h s =
        let sound = run-Sound es a h s in
        sym
          (append-nil (keep (λ i. k == channel i) (concat (flush_all Item Window (run es a)).sent)))
        ∙ ap (λ t. keep (λ i. k == channel i) (concat (flush_all Item Window (run es a)).sent) ++ t)
            (sym (flush_all-bucket (run es a) sound k))
        ∙ flush_all-through (run es a) sound k
        ∙ (run-through es a h s).0 k
