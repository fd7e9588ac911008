-- ===== src/Queue/Examples.antt =====
-- A queue over a log of one perception that is written as its number in strokes.
use doll_os.Prelude.{
  ℕ, zero, suc, ◌≡◌, refl, ap, String, true, false, some, none, List, [], ◌∷◌, ◌++◌, ◌==◌, length,
  keep,
}
use doll_os.Prelude.Dict.{bucket}
use doll_os.Perception.{Perception, str}
use doll_os.Wal.{Codec, Wal, open_wal}
use doll_os.Wal.Lines.{OneLine}
use doll_os.Wal.Recovery.{Journal, Faithful}
use doll_os.Queue.{replay, drain_grouped}
use doll_os.Queue.Replay.{put_all, replay-put_all}

abbrev said : Perception
said = record { kind = "UserSpoke"; t = 7; data_ = ("text", str "hi") ∷ []; seq = none }

abbrev strokes : ℕ → List ℕ
strokes zero = []
strokes (suc n) = 124 ∷ strokes n

abbrev codec : Codec
codec = record {
  dumps = λ e. strokes e.0;
  read_seq = λ l. some (length l);
  read = λ l. some (length l, said);
}

length-strokes : (n : ℕ) → length (strokes n) ≡ n
length-strokes zero = refl
length-strokes (suc n) = ap suc (length-strokes n)

strokes-OneLine : (n : ℕ) → OneLine (strokes n)
strokes-OneLine zero = refl
strokes-OneLine (suc n) = strokes-OneLine n

codec-Faithful : Faithful codec (λ p. p ≡ said)
codec-Faithful n p h =
    (strokes-OneLine n, ap some (length-strokes n), rw (length-strokes n, h) refl)

-- The log still holds the perception with number 1.
abbrev before : Wal
before = record { file = 124 ∷ 10 ∷ []; next_seq = 2 }

abbrev journal : Journal
journal = record { entries = (1, said) ∷ []; next = 2 }

abbrev after : Wal
after = record { file = 124 ∷ 10 ∷ 124 ∷ 124 ∷ 10 ∷ []; next_seq = 3 }

replay-put_all_example :
    (replay codec (open_wal codec after.file)).items
    ≡ (put_all codec (said ∷ []) (replay codec before)).items
unfolding put_all replay doll_os.Wal.Lines.join_lines doll_os.Wal.iter_pending
    doll_os.Wal.Lines.split_lines doll_os.Wal.append
replay-put_all_example =
    replay-put_all codec (λ p. p ≡ said) codec-Faithful before journal (refl, refl, (refl, tt))
      (said ∷ []) after (refl, tt) ((refl, refl), tt) refl

abbrev from_channel : String → ℕ → Perception
from_channel c n = record {
  kind = "ChannelMessage";
  t = n;
  data_ = ("channel_id", str c) ∷ [];
  seq = some n;
}

abbrev batch : List Perception
batch = from_channel "a" 1 ∷ said ∷ from_channel "b" 2 ∷ from_channel "a" 3 ∷ []

grouped :
    (drain_grouped true false (record { items = batch; wal = none })).0
    ≡ (from_channel "a" 1 ∷ from_channel "a" 3 ∷ []) ∷ (said ∷ []) ∷ (from_channel "b" 2 ∷ []) ∷ []
unfolding drain_grouped doll_os.Prelude.Dict.put doll_os.Prelude.Dict.get
grouped = refl

-- A shutdown that is signalled while the wait ends drops the perception that `get` has taken.
dropped :
    (drain_grouped true true (record { items = said ∷ []; wal = none }))
    ≡ ([], record { items = []; wal = none })
unfolding drain_grouped
dropped = refl
