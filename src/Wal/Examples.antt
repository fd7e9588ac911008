-- ===== src/Wal/Examples.antt =====
-- A log of one perception that is written as its number in strokes.
use doll_os.Prelude.{ℕ, zero, suc, ◌≡◌, refl, ap, some, none, List, [], ◌∷◌, length}
use doll_os.Perception.{Perception, str}
use doll_os.Wal.{Codec, Entry, Wal, iter_pending, open_wal}
use doll_os.Wal.Lines.{OneLine}
use doll_os.Wal.Recovery.{
  Event, Journal, put, consume, reopen, record_all, live, run, Faithful, iter_pending-run,
}

abbrev said : Perception
said = record { kind = "UserSaid"; t = 7; data_ = ("text", str "hi") ∷ []; seq = none }

abbrev strokes : ℕ → List ℕ
strokes zero = []
strokes (suc n) = 124 ∷ strokes n

abbrev codec : Codec
codec = record {
  dumps = λ e. strokes e.0;
  read_seq = λ l. some (length l);
  read = λ l. some (length l, said);
}

length-strokes : (n : ℕ) → length (strokes n) ≡ n
length-strokes zero = refl
length-strokes (suc n) = ap suc (length-strokes n)

strokes-OneLine : (n : ℕ) → OneLine (strokes n)
strokes-OneLine zero = refl
strokes-OneLine (suc n) = strokes-OneLine n

codec-Faithful : Faithful codec (λ p. p ≡ said)
codec-Faithful n p h =
    (strokes-OneLine n, ap some (length-strokes n), rw (length-strokes n, h) refl)

abbrev events : List Event
events = put said ∷ put said ∷ consume 1 ∷ reopen ∷ put said ∷ []

abbrev empty : Wal
empty = record { file = []; next_seq = 1 }

abbrev nothing : Journal
nothing = record { entries = []; next = 1 }

-- After the first entry is consumed and the log is opened again, the next number is 3.
numbers : iter_pending codec (run codec events empty) ≡ (2, said) ∷ (3, said) ∷ []
unfolding iter_pending run doll_os.Wal.Lines.split_lines doll_os.Wal.Lines.join_lines
numbers = refl

-- A log consumed to the end starts again at 1 when it is opened.
restarted :
    iter_pending codec (run codec (put said ∷ consume 1 ∷ reopen ∷ put said ∷ []) empty)
    ≡ (1, said) ∷ []
unfolding iter_pending run doll_os.Wal.Lines.split_lines doll_os.Wal.Lines.join_lines
restarted = refl

iter_pending-run_example :
    iter_pending codec (run codec events empty) ≡ live (record_all events nothing).entries
unfolding doll_os.Wal.Lines.join_lines
iter_pending-run_example =
    iter_pending-run codec (λ p. p ≡ said) codec-Faithful events empty nothing
      (refl, (refl, (refl, tt))) (refl, refl, tt)
