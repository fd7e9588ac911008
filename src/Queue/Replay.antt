-- ===== src/Queue/Replay.antt =====
-- What a restart brings back of the perceptions that were put.
use mathlib.Core.Option
use mathlib.Core.List.{append_assoc, append-nil}
use doll_os.Prelude.{
  ℕ, ◌+◌, ◌≡◌, refl, sym, ap, ◌∙◌, false, Option, none, some, List, [], ◌∷◌, ◌++◌, member, All,
  arith,
}
use doll_os.Perception.{Perception}
use doll_os.Wal.{Codec, Entry, Wal, legacy_kinds, append, iter_pending, open_wal}
use doll_os.Wal.Recovery.{
  Event, Journal, reopen, record_event, record_all, live, step, run, Faithful, AllPlain, Holds,
  iter_pending-run,
}
use doll_os.Wal.Recovery
use doll_os.Queue.{Queue, stamped, enqueue, put_perception, put_pending, replay}

-- `put` of each, in order.
unfoldable pub put_all : Codec → List Perception → Queue → Queue
unfolding put_perception
put_all codec [] q = q
put_all codec (p ∷ ps) q = put_all codec ps (put_perception codec p q)

-- What the replay of entries puts into the queue.
unfoldable restored : List Entry → List Perception
unfolding stamped
restored [] = []
restored (e ∷ es) = stamped e.0 e.1 ∷ restored es

unfoldable numbered : ℕ → List Perception → List Entry
numbered n [] = []
numbered n (p ∷ ps) = (n, p) ∷ numbered (n + 1) ps

-- What happens to the log meanwhile.
abbrev puts : List Perception → List Event
puts [] = reopen ∷ []
puts (p ∷ ps) = Recovery.put p ∷ puts ps

-- A perception that has no number yet, and is of no legacy kind.
abbrev pub New : Perception → Type 0
New p = (p.seq ≡ none) × (member p.kind legacy_kinds ≡ false)

unfoldable wal_after : Codec → List Perception → Wal → Wal
wal_after codec [] w = w
wal_after codec (p ∷ ps) w = wal_after codec ps (append codec p w).1

abbrev holding : List Perception → Wal → Queue
holding items w = record { items = items; wal = some w }

put_perception-new :
    (codec : Codec) (p : Perception) (items : List Perception) (w : Wal)
    → p.seq ≡ none
    → put_perception codec p (holding items w)
      ≡ holding (items ++ stamped w.next_seq p ∷ []) (append codec p w).1
unfolding put_perception append enqueue
put_perception-new codec p items w h = by_seq p.seq h
  where
    by_seq :
        (o : Option ℕ)
        → o ≡ none
        → (elim o as (λ x. Queue) [
          | none ↦ enqueue (stamped w.next_seq p) (holding items (append codec p w).1)
          | some n ↦ enqueue p (holding items w)
        ])
          ≡ holding (items ++ stamped w.next_seq p ∷ []) (append codec p w).1
    by_seq o e = rw e refl

put_all-numbered :
    (codec : Codec) (ps items : List Perception) (w : Wal)
    → All New ps
    → put_all codec ps (holding items w)
      ≡ holding (items ++ restored (numbered w.next_seq ps)) (wal_after codec ps w)
unfolding put_all wal_after numbered restored append
put_all-numbered codec [] items w h = rw (append-nil items) refl
put_all-numbered codec (p ∷ ps) items w h =
    ap (put_all codec ps) (put_perception-new codec p items w h.0.0)
    ∙ put_all-numbered codec ps (items ++ stamped w.next_seq p ∷ []) (append codec p w).1 h.1
    ∙ ap (λ x. holding x (wal_after codec ps (append codec p w).1))
        (append_assoc items (stamped w.next_seq p ∷ []) (restored (numbered (w.next_seq + 1) ps)))

put_pending-restored :
    (codec : Codec) (es : List Entry) (items : List Perception) (w : Wal)
    → put_pending codec es (holding items w) ≡ holding (items ++ restored es) w
unfolding put_pending restored put_perception enqueue
put_pending-restored codec [] items w = rw (append-nil items) refl
put_pending-restored codec (e ∷ es) items w =
    put_pending-restored codec es (items ++ stamped e.0 e.1 ∷ []) w
    ∙ ap (λ x. holding x w) (append_assoc items (stamped e.0 e.1 ∷ []) (restored es))

replay-restored :
    (codec : Codec) (w : Wal) → replay codec w ≡ holding (restored (iter_pending codec w)) w
unfolding replay
replay-restored codec w = put_pending-restored codec (iter_pending codec w) [] w

run-puts :
    (codec : Codec) (ps : List Perception) (w : Wal)
    → run codec (puts ps) w ≡ open_wal codec (wal_after codec ps w).file
unfolding run step wal_after
run-puts codec [] w = refl
run-puts codec (p ∷ ps) w = run-puts codec ps (append codec p w).1

record_all-puts :
    (ps : List Perception) (j : Journal)
    → (record_all (puts ps) j).entries ≡ j.entries ++ numbered j.next ps
unfolding record_all record_event numbered
record_all-puts [] j = sym (append-nil j.entries)
record_all-puts (p ∷ ps) j =
    record_all-puts ps (record_event (Recovery.put p) j)
    ∙ append_assoc j.entries ((j.next, p) ∷ []) (numbered (j.next + 1) ps)

live-append : (es fs : List Entry) → live (es ++ fs) ≡ live es ++ live fs
unfolding live
live-append [] fs = refl
live-append (e ∷ es) fs = ground (arith, live-append es fs)

live-numbered : (n : ℕ) (ps : List Perception) → All New ps → live (numbered n ps) ≡ numbered n ps
unfolding live numbered
live-numbered n [] h = refl
live-numbered n (p ∷ ps) h = rw (h.0.1, live-numbered (n + 1) ps h.1) refl

restored-append : (es fs : List Entry) → restored (es ++ fs) ≡ restored es ++ restored fs
unfolding restored
restored-append [] fs = refl
restored-append (e ∷ es) fs = ap (λ x. stamped e.0 e.1 ∷ x) (restored-append es fs)

AllPlain-puts :
    (codec : Codec) (Plain : Perception → Type 0) (ps : List Perception)
    → All Plain ps
    → AllPlain codec Plain (puts ps)
AllPlain-puts codec Plain [] h = h
AllPlain-puts codec Plain (p ∷ ps) h = (h.0, AllPlain-puts codec Plain ps h.1)

module _ (codec : Codec) (Plain : Perception → Type 0) (faithful : Faithful codec Plain) (w : Wal)
    (j : Journal) (holds : Holds codec Plain w j) where
  pending-now : iter_pending codec w ≡ live j.entries
  unfolding run record_all
  pending-now = iter_pending-run codec Plain faithful [] w j tt holds

  pending-later :
      (ps : List Perception)
      → All Plain ps
      → All New ps
      → iter_pending codec (open_wal codec (wal_after codec ps w).file)
        ≡ live j.entries ++ numbered w.next_seq ps
  pending-later ps l new =
      ap (iter_pending codec) (sym (run-puts codec ps w))
      ∙ iter_pending-run codec Plain faithful (puts ps) w j (AllPlain-puts codec Plain ps l) holds
      ∙ ap live (record_all-puts ps j)
      ∙ live-append j.entries (numbered j.next ps)
      ∙ ap (λ x. live j.entries ++ x) (live-numbered j.next ps new)
      ∙ ap (λ n. live j.entries ++ numbered n ps) (sym holds.1)

  queue-later :
      (ps : List Perception)
      → All New ps
      → put_all codec ps (replay codec w)
        ≡ holding
            (restored (live j.entries) ++ restored (numbered w.next_seq ps))
            (wal_after codec ps w)
  queue-later ps new =
      ap (put_all codec ps) (replay-restored codec w)
      ∙ put_all-numbered codec ps (restored (iter_pending codec w)) w new
      ∙ ap (λ es. holding (restored es ++ restored (numbered w.next_seq ps)) (wal_after codec ps w))
          pending-now

  -- Where perceptions are written as one line and read back: a kernel starts on a log that holds a
  -- journal, and plain perceptions of the present kinds that have no number yet are put. If it stops
  -- before any is drained, the next kernel's replay fills the queue with the same perceptions, with
  -- the same numbers and in the same order, and with nothing else.
  pub replay-put_all :
      (ps : List Perception) (after : Wal)
      → All Plain ps
      → All New ps
      → (put_all codec ps (replay codec w)).wal ≡ some after
      → (replay codec (open_wal codec after.file)).items ≡ (put_all codec ps (replay codec w)).items
  replay-put_all ps after l new h =
      let same = sym (ap (λ q. q.wal) (queue-later ps new)) ∙ h in
      ap (λ q. q.items) (replay-restored codec (open_wal codec after.file))
      ∙ ap (λ o. restored (iter_pending codec (open_wal codec (Option.get_or o w).file))) (sym same)
      ∙ ap restored (pending-later ps l new)
      ∙ restored-append (live j.entries) (numbered w.next_seq ps)
      ∙ sym (ap (λ q. q.items) (queue-later ps new))
