-- ===== src/Wal/Numbers.antt =====
-- The sequence numbers of the log: a restart starts them again from the file, and still no number
-- is given twice among the entries that the log holds.
use doll_os.Prelude.{
  ℕ, ◌+◌, ◌≤◌, Bool, List, [], ◌∷◌, ◌++◌, arith, ltb, if◌then◌else◌, keep, member, Bool-cases, inl,
  inr,
}
use doll_os.Perception.{Perception}
use doll_os.Wal.{Codec, Entry, Wal, legacy_kinds, iter_pending}
use doll_os.Wal.Recovery.{
  Event, Journal, put, consume, reopen, newest, record_event, record_all, live, run, AllPlain,
  Faithful, Holds, run-Holds, iter_pending-run,
}

-- The numbers of the entries ascend strictly, from `low` on and below `next`.
abbrev pub Rising : ℕ → List Entry → ℕ → Type 0
Rising low [] next = low ≤ next
Rising low (e ∷ es) next = (low ≤ e.0) × Rising (e.0 + 1) es next

Rising-weaken :
    (low least : ℕ) (es : List Entry) (next : ℕ)
    → least ≤ low
    → Rising low es next
    → Rising least es next
Rising-weaken low least [] next l h = omega arith
Rising-weaken low least (e ∷ es) next l h = (omega (arith, h.0), h.1)

Rising-append :
    (low : ℕ) (es : List Entry) (next : ℕ) (p : Perception)
    → Rising low es next
    → Rising low (es ++ (next, p) ∷ []) (next + 1)
Rising-append low [] next p h = (h, omega arith)
Rising-append low (e ∷ es) next p h = (h.0, Rising-append (e.0 + 1) es next p h.1)

Rising-keep :
    (q : Entry → Bool) (low : ℕ) (es : List Entry) (next : ℕ)
    → Rising low es next
    → Rising low (keep q es) next
Rising-keep q low [] next h = h
Rising-keep q low (e ∷ es) next h =
    let rest = Rising-keep q (e.0 + 1) es next h.1 in
    elim (Bool-cases (q e)) [
      | inl y ↦ rw y (h.0, rest)
      | inr n ↦ rw n (Rising-weaken (e.0 + 1) low (keep q es) next (omega (arith, h.0)) rest)
    ]

Rising-live :
    (low : ℕ) (es : List Entry) (next : ℕ) → Rising low es next → Rising low (live es) next
unfolding live
Rising-live low [] next h = h
Rising-live low (e ∷ es) next h =
    let rest = Rising-live (e.0 + 1) es next h.1 in
    elim (Bool-cases (member e.1.kind legacy_kinds)) [
      | inl y ↦ rw y (Rising-weaken (e.0 + 1) low (live es) next (omega (arith, h.0)) rest)
      | inr n ↦ rw n (h.0, rest)
    ]

Rising-newest :
    (low best : ℕ) (es : List Entry) (next : ℕ)
    → low ≤ best + 1
    → Rising low es next
    → Rising low es (newest best es + 1)
unfolding newest
Rising-newest low best [] next l h = l
Rising-newest low best (e ∷ es) next l h =
    (h.0, Rising-newest (e.0 + 1) (if ltb best e.0 then e.0 else best) es next (ground arith) h.1)

record_event-Rising :
    (e : Event) (j : Journal)
    → Rising 0 j.entries j.next
    → Rising 0 (record_event e j).entries (record_event e j).next
unfolding record_event
record_event-Rising (put p) j h = Rising-append 0 j.entries j.next p h
record_event-Rising (consume seq) j h = Rising-keep (λ e. ltb seq e.0) 0 j.entries j.next h
record_event-Rising reopen j h = Rising-newest 0 0 j.entries j.next (omega arith) h

record_all-Rising :
    (es : List Event) (j : Journal)
    → Rising 0 j.entries j.next
    → Rising 0 (record_all es j).entries (record_all es j).next
unfolding record_all
record_all-Rising [] j h = h
record_all-Rising (e ∷ es) j h = record_all-Rising es (record_event e j) (record_event-Rising e j h)

-- Whatever is appended, consumed and reopened: the sequence numbers of what a restart brings back
-- ascend strictly, and the next perception gets a number above them all.
pub iter_pending-Rising :
    (codec : Codec) (Plain : Perception → Type 0) (faithful : Faithful codec Plain)
    (es : List Event) (w : Wal) (j : Journal)
    → AllPlain codec Plain es
    → Holds codec Plain w j
    → Rising 0 j.entries j.next
    → Rising 0 (iter_pending codec (run codec es w)) (run codec es w).next_seq
iter_pending-Rising codec Plain faithful es w j l h r =
    rw
      (
        iter_pending-run codec Plain faithful es w j l h,
        (run-Holds codec Plain faithful es w j l h).1,
      )
      (Rising-live 0 (record_all es j).entries (record_all es j).next (record_all-Rising es j r))
