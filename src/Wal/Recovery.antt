-- ===== src/Wal/Recovery.antt =====
-- What the log promises: the perceptions appended and not yet consumed, in order, whatever is
-- appended, consumed and reopened in between.
use doll_os.Prelude.{
  ℕ, ◌+◌, ◌≡◌, refl, ap, Bool, some, List, [], ◌∷◌, ◌++◌, ltb, if◌then◌else◌, keep, map, member,
  All, Bool-cases, inl, inr,
}
use doll_os.Perception.{Perception}
use doll_os.Wal.{
  Codec, Entry, Wal, legacy_kinds, max_seq, open_wal, append, pending_of, iter_pending, above,
  truncate_through,
}
use doll_os.Wal.Lines.{split_lines, join_lines, OneLine, split_lines-join, join_lines-append}

-- What happens to a log: a perception is appended, all up to a number are consumed, or the daemon
-- stops and opens the file again.
pub data Event : Type 0 where
  put : Perception → Event
  consume : ℕ → Event
  reopen : Event

-- The log as a list of entries and the next number.
pub record Journal : Type 0 where
  pub entries : List Entry
  pub next : ℕ

unfoldable pub newest : ℕ → List Entry → ℕ
newest best [] = best
newest best (e ∷ es) = newest (if ltb best e.0 then e.0 else best) es

unfoldable pub record_event : Event → Journal → Journal
record_event (put p) j = record { entries = j.entries ++ (j.next, p) ∷ []; next = j.next + 1 }
record_event (consume seq) j = record j { entries = keep (λ e. ltb seq e.0) j.entries }
record_event reopen j = record j { next = newest 0 j.entries + 1 }

unfoldable pub record_all : List Event → Journal → Journal
unfolding record_event
record_all [] j = j
record_all (e ∷ es) j = record_all es (record_event e j)

-- The entries that a restart brings back.
unfoldable pub live : List Entry → List Entry
live [] = []
live (e ∷ es) = if member e.1.kind legacy_kinds then live es else e ∷ live es

module _ (codec : Codec) where
  open codec use {dumps, read_seq, read}

  unfoldable pub step : Event → Wal → Wal
  unfolding append truncate_through open_wal
  step (put p) w = (append codec p w).1
  step (consume seq) w = truncate_through codec seq w
  step reopen w = open_wal codec w.file

  unfoldable pub run : List Event → Wal → Wal
  unfolding step
  run [] w = w
  run (e ∷ es) w = run es (step e w)

  module _ (Plain : Perception → Type 0) where
    -- The perception of a `put` is one that the codec keeps.
    abbrev pub AllPlain : List Event → Type 0
    AllPlain [] = Unit
    AllPlain (put p ∷ es) = Plain p × AllPlain es
    AllPlain (consume seq ∷ es) = AllPlain es
    AllPlain (reopen ∷ es) = AllPlain es

    -- Of a plain perception `json.dumps` makes one line, and `json.loads` reads it back.
    abbrev pub Faithful : Type 0
    Faithful =
        (n : ℕ) (p : Perception)
        → Plain p
        → OneLine (dumps (n, p))
          × (read_seq (dumps (n, p)) ≡ some n)
          × (read (dumps (n, p)) ≡ some (n, p))

    -- The file holds the lines of these entries.
    abbrev pub Holds : Wal → Journal → Type 0
    Holds w j =
        (w.file ≡ join_lines (map dumps j.entries))
        × (w.next_seq ≡ j.next)
        × All (λ e. Plain e.1) j.entries

    module _ (faithful : Faithful) where
      lines-OneLine : (es : List Entry) → All (λ e. Plain e.1) es → All OneLine (map dumps es)
      lines-OneLine [] h = h
      lines-OneLine ((n, p) ∷ es) h = ((faithful n p h.0).0, lines-OneLine es h.1)

      split-Holds :
          (es : List Entry)
          → All (λ e. Plain e.1) es
          → split_lines (join_lines (map dumps es)) ≡ map dumps es
      split-Holds es h = split_lines-join (map dumps es) (lines-OneLine es h)

      pending_of-live :
          (es : List Entry) → All (λ e. Plain e.1) es → pending_of codec (map dumps es) ≡ live es
      unfolding pending_of live
      pending_of-live [] h = refl
      pending_of-live ((n, p) ∷ es) h = rw ((faithful n p h.0).2, pending_of-live es h.1) refl

      max_seq-newest :
          (best : ℕ) (es : List Entry)
          → All (λ e. Plain e.1) es
          → max_seq codec best (map dumps es) ≡ newest best es
      unfolding max_seq newest
      max_seq-newest best [] h = refl
      max_seq-newest best ((n, p) ∷ es) h =
          rw (max_seq, (faithful n p h.0).1)
            (max_seq-newest (if ltb best n then n else best) es h.1)

      above-dumps :
          (seq n : ℕ) (p : Perception) → Plain p → above codec seq (dumps (n, p)) ≡ ltb seq n
      unfolding above
      above-dumps seq n p l = rw (above, (faithful n p l).1) refl

      keep-above :
          (seq : ℕ) (es : List Entry)
          → All (λ e. Plain e.1) es
          → keep (above codec seq) (map dumps es) ≡ map dumps (keep (λ e. ltb seq e.0) es)
      keep-above seq [] h = refl
      keep-above seq ((n, p) ∷ es) h =
          rw (above-dumps seq n p h.0, keep-above seq es h.1)
            (elim (Bool-cases (ltb seq n)) [ inl y ↦ rw y refl | inr m ↦ rw m refl ])

      All-keep :
          (q : Entry → Bool) (es : List Entry)
          → All (λ e. Plain e.1) es
          → All (λ e. Plain e.1) (keep q es)
      All-keep q [] h = h
      All-keep q (e ∷ es) h = elim (Bool-cases (q e)) [
        | inl y ↦ rw y (h.0, All-keep q es h.1)
        | inr n ↦ rw n (All-keep q es h.1)
      ]

      All-append :
          (es : List Entry) (n : ℕ) (p : Perception)
          → All (λ e. Plain e.1) es
          → Plain p
          → All (λ e. Plain e.1) (es ++ (n, p) ∷ [])
      All-append [] n p h l = (l, h)
      All-append (e ∷ es) n p h l = (h.0, All-append es n p h.1 l)

      map-append :
          (es : List Entry) (e : Entry) → map dumps (es ++ e ∷ []) ≡ map dumps es ++ dumps e ∷ []
      map-append [] e = refl
      map-append (d ∷ es) e = ap (λ t. dumps d ∷ t) (map-append es e)

      file-append :
          (w : Wal) (j : Journal) (p : Perception)
          → Holds w j
          → w.file ++ (dumps (w.next_seq, p) ++ 10 ∷ [])
            ≡ join_lines (map dumps (j.entries ++ (j.next, p) ∷ []))
      file-append w j p h =
          rw
            (
              h.0,
              h.1,
              map-append j.entries (j.next, p),
              join_lines-append (map dumps j.entries) (dumps (j.next, p)),
            )
            refl

      -- One operation keeps the file in step with the journal.
      step-Holds :
          (e : Event) (w : Wal) (j : Journal)
          → AllPlain (e ∷ [])
          → Holds w j
          → Holds (step e w) (record_event e j)
      unfolding step record_event append truncate_through open_wal
      step-Holds (put p) w j l h =
          (file-append w j p h, ap (λ n. n + 1) h.1, All-append j.entries j.next p h.2 l.0)
      step-Holds (consume seq) w j l h = (
        ap join_lines (rw (h.0, split-Holds j.entries h.2) (keep-above seq j.entries h.2)),
        h.1,
        All-keep (λ e. ltb seq e.0) j.entries h.2,
      )
      step-Holds reopen w j l h = (
        h.0,
        ap (λ n. n + 1) (rw (h.0, split-Holds j.entries h.2) (max_seq-newest 0 j.entries h.2)),
        h.2,
      )

      pub run-Holds :
          (es : List Event) (w : Wal) (j : Journal)
          → AllPlain es
          → Holds w j
          → Holds (run es w) (record_all es j)
      unfolding run record_all
      run-Holds [] w j l h = h
      run-Holds (put p ∷ es) w j l h =
          run-Holds es (step (put p) w) (record_event (put p) j) l.1
            (step-Holds (put p) w j (l.0, tt) h)
      run-Holds (consume seq ∷ es) w j l h =
          run-Holds es (step (consume seq) w) (record_event (consume seq) j) l
            (step-Holds (consume seq) w j tt h)
      run-Holds (reopen ∷ es) w j l h =
          run-Holds es (step reopen w) (record_event reopen j) l (step-Holds reopen w j tt h)

      -- Whatever is appended, consumed and reopened in any order: what a restart brings back is the
      -- entries appended and not consumed, in order, less those of the legacy kinds.
      pub iter_pending-run :
          (es : List Event) (w : Wal) (j : Journal)
          → AllPlain es
          → Holds w j
          → iter_pending codec (run es w) ≡ live (record_all es j).entries
      unfolding iter_pending
      iter_pending-run es w j l h =
          let k = run-Holds es w j l h in
          rw (k.0, split-Holds (record_all es j).entries k.2)
            (pending_of-live (record_all es j).entries k.2)
