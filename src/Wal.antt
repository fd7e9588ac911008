-- ===== src/Wal.antt =====
-- src/dollos/wal/perception_log.py: the write-ahead log of perceptions, a text file with an entry to
-- a line. The file is its code points, empty where it does not exist; a write replaces it whole or
-- appends to it. `json.dumps` and `json.loads` on an entry are the parameter `Codec`.
pub mod Lines
pub mod Recovery
pub mod Numbers
mod Examples
use doll_os.Prelude.{
  ℕ, suc, ◌+◌, String, Bool, true, false, not, Option, none, some, List, [], ◌∷◌, ◌++◌, ltb,
  if◌then◌else◌, keep, map, member,
}
use doll_os.Perception.{Perception}
use doll_os.Wal.Lines.{split_lines, join_lines}

abbrev pub legacy_kinds : List String
legacy_kinds = "MonitorFired" ∷ "MonitorEnded" ∷ []

-- An entry: its sequence number and its perception.
abbrev pub Entry : Type 0
Entry = ℕ × Perception

-- `dumps` writes a line; `read_seq` is `int(json.loads(line)["seq"])` and `read` the whole entry, or
-- `none` where the source catches an error.
pub record Codec : Type 0 where
  pub dumps : Entry → List ℕ
  pub read_seq : List ℕ → Option ℕ
  pub read : List ℕ → Option Entry

pub record Wal : Type 0 where
  pub file : List ℕ
  pub next_seq : ℕ

module _ (codec : Codec) where
  open codec use {dumps, read_seq, read}

  -- `_scan_max_seq`
  unfoldable pub max_seq : ℕ → List (List ℕ) → ℕ
  max_seq best [] = best
  max_seq best (line ∷ lines) =
      max_seq (elim (read_seq line) [ none ↦ best | some s ↦ if ltb best s then s else best ]) lines

  -- `PerceptionWAL(path)`
  unfoldable pub open_wal : List ℕ → Wal
  unfolding max_seq
  open_wal file = record { file = file; next_seq = max_seq 0 (split_lines file) + 1 }

  unfoldable pub append : Perception → Wal → ℕ × Wal
  append p w = (
    w.next_seq,
    record { file = w.file ++ (dumps (w.next_seq, p) ++ 10 ∷ []); next_seq = w.next_seq + 1 },
  )

  unfoldable pub pending_of : List (List ℕ) → List Entry
  pending_of [] = []
  pending_of (line ∷ lines) = elim (read line) [
    | none ↦ pending_of lines
    | some e ↦ if member e.1.kind legacy_kinds then pending_of lines else e ∷ pending_of lines
  ]

  unfoldable pub iter_pending : Wal → List Entry
  unfolding pending_of
  iter_pending w = pending_of (split_lines w.file)

  unfoldable pub above : ℕ → List ℕ → Bool
  above seq line = elim (read_seq line) [ none ↦ false | some s ↦ ltb seq s ]

  unfoldable pub truncate_through : ℕ → Wal → Wal
  unfolding above
  truncate_through seq w = record w { file = join_lines (keep (above seq) (split_lines w.file)) }
