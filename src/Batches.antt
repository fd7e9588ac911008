-- ===== src/Batches.antt =====
-- src/dollos/ipc/batch_accumulator.py: the items of a channel wait for a window of time and go out as
-- one batch. What `enqueue` was called with is kept in `sent`; a window is a float, a parameter.
pub mod Steps
pub mod Delivery
mod Examples
use mathlib.Core.Option
use doll_os.Prelude.{String, Option, none, some, List, [], ◌∷◌, ◌++◌, if◌then◌else◌, map}
use doll_os.Prelude.Dict.{Dict, get, put, remove, has, bucket}

module _ (Item Window : Type 0) where
  pub record Accumulator : Type 0 where
    pub pending : Dict (List Item)
    pub timers : Dict Window
    pub sent : List (List Item)
    pub window_s : Window

  -- A channel without a batch gets an empty one and its timer.
  unfoldable pub open_batch : String → Option Window → Accumulator → Accumulator
  open_batch c w a = if has a.pending c then a else record a {
    pending = put a.pending c [];
    timers = put a.timers c (Option.get_or w a.window_s);
  }

  unfoldable pub push : String → Item → Accumulator → Accumulator
  push c item a = record a { pending = put a.pending c (bucket a.pending c ++ item ∷ []) }

  -- `add`
  unfoldable pub add_item : String → Item → Option Window → Accumulator → Accumulator
  unfolding open_batch push
  add_item c item w a = push c item (open_batch c w a)

  -- `if items: self._enqueue(items)`
  unfoldable pub send : List Item → Accumulator → Accumulator
  send [] a = a
  send (i ∷ items) a = record a { sent = a.sent ++ (i ∷ items) ∷ [] }

  -- `_flush`
  unfoldable pub flush_batch : String → Accumulator → Accumulator
  unfolding send
  flush_batch c a =
      send (bucket a.pending c)
        (record a { pending = remove a.pending c; timers = remove a.timers c })

  -- `_fire_after` behind its sleep: only a timer that is still there fires.
  unfoldable pub fire : String → Accumulator → Accumulator
  unfolding flush_batch
  fire c a = if has a.timers c then flush_batch c a else a

  unfoldable pub flush_each : List String → Accumulator → Accumulator
  unfolding flush_batch
  flush_each [] a = a
  flush_each (c ∷ cs) a = flush_each cs (flush_batch c a)

  unfoldable pub flush_all : Accumulator → Accumulator
  unfolding flush_each
  flush_all a = flush_each (map (λ e. e.0) a.pending) a
