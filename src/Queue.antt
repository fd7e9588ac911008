-- ===== src/Queue.antt =====
-- src/dollos/mind/perception_queue.py: the queue of perceptions and its log, and the kernel's replay
-- of the log (`_replay_wal` of src/dollos/kernel.py). Which tasks of `drain` are done when its wait
-- ends is an input. A channel id is a text, as the bridge's messages declare it.
pub mod Buckets
pub mod Replay
mod Examples
use doll_os.Prelude.{
  ℕ, String, Bool, true, false, Option, none, some, List, [], ◌∷◌, ◌++◌, if◌then◌else◌, map,
}
use doll_os.Prelude.Dict.{Dict, get, put, bucket}
use doll_os.Perception.{Perception, Value, str}
use doll_os.Wal.{Codec, Entry, Wal, append, iter_pending}

pub record Queue : Type 0 where
  pub items : List Perception
  pub wal : Option Wal

unfoldable pub stamped : ℕ → Perception → Perception
stamped n p = record p { seq = some n }

unfoldable pub enqueue : Perception → Queue → Queue
enqueue p q = record q { items = q.items ++ p ∷ [] }

-- `PerceptionQueue.put`
unfoldable pub put_perception : Codec → Perception → Queue → Queue
unfolding stamped enqueue
put_perception codec p q = elim q.wal [
  | none ↦ enqueue p q
  | some w ↦ elim p.seq [
    | some n ↦ enqueue p q
    | none ↦ let r = append codec p w in enqueue (stamped r.0 p) (record q { wal = some r.1 })
  ]
]

-- The loop of the replay.
unfoldable pub put_pending : Codec → List Entry → Queue → Queue
unfolding put_perception stamped
put_pending codec [] q = q
put_pending codec (e ∷ es) q = put_pending codec es (put_perception codec (stamped e.0 e.1) q)

-- A kernel that starts on a log replays it into an empty queue.
unfoldable pub replay : Codec → Wal → Queue
unfolding put_pending
replay codec w = put_pending codec (iter_pending codec w) (record { items = []; wal = some w })

-- `drain`: `got` says that the task of `queue.get` is done, which takes the first perception out
-- whether or not the shutdown is signalled.
unfoldable pub drain : Bool → Bool → Queue → List Perception × Queue
drain got shutdown q = elim q.items [
  | [] ↦ ([], q)
  | p ∷ rest ↦
      if got
      then (if shutdown
          then ([], record q { items = rest })
          else (p ∷ rest, record q { items = [] }))
      else ([], q)
]

-- `(p.data or {}).get("channel_id") or ""`
unfoldable pub key_of : Perception → String
key_of p = elim (get p.data_ "channel_id") [ some (str s) ↦ s | _ ↦ "" ]

-- `buckets.setdefault(key, []).append(p)`
unfoldable pub add_to : Perception → Dict (List Perception) → Dict (List Perception)
add_to p d = put d (key_of p) (bucket d (key_of p) ++ p ∷ [])

unfoldable pub group_from : Dict (List Perception) → List Perception → Dict (List Perception)
unfolding add_to
group_from d [] = d
group_from d (p ∷ ps) = group_from (add_to p d) ps

unfoldable pub drain_grouped : Bool → Bool → Queue → List (List Perception) × Queue
unfolding drain group_from key_of
drain_grouped got shutdown q =
    let r = drain got shutdown q in (map (λ b. b.1) (group_from [] r.0), r.1)
