-- ===== src/Llm/Lines.antt =====
-- The loop of `stream` over the lines of an answer: what it leaves in the reply and in the events.
use doll_os.Prelude.{
  ℕ, ◌≡◌, Bool, true, false, Option, none, some, List, [], ◌∷◌, ◌++◌, any, ◌≢◌, ◌||◌, All,
  Bool-cases, inl, inr,
}
use doll_os.Llm.{Fragment, Chunk, Reply}
use doll_os.Llm.Feed.{feed, feed_choices, start_chunk, feed_unless, raises, events_of}
use doll_os.Llm.Adapter.{
  Wire, SseLine, skipped, done, bad, shapeless, chunk, Streamed, transport, server, read_line,
  read_lines, Raised, model_error, other_error, raised_with, after_line, after_feed,
}
use doll_os.Llm.Deltas.{
  fragments_of, IsDelta, Read, Read-nil, Read-append, All-append, feed_choices-Read,
}

module _ {Real : Type 0} (wire : Wire Real) where
  -- The pieces in the chunks that are read: up to the mark of the end, or what is an error.
  abbrev pub unless_failed : Chunk Real → List Fragment → Option (List ℕ) → List Fragment
  unless_failed c rest none = fragments_of c.choices ++ rest
  unless_failed c rest (some m) = []

  abbrev pub line_fragments : List Fragment → SseLine Real → List Fragment
  line_fragments rest skipped = rest
  line_fragments rest done = []
  line_fragments rest bad = []
  line_fragments rest shapeless = []
  line_fragments rest (chunk c) = unless_failed c rest c.failed

  unfoldable pub streamed_fragments : List (Real × List ℕ) → List Fragment
  streamed_fragments [] = []
  streamed_fragments ((now, line) ∷ lines) =
      line_fragments (streamed_fragments lines) (read_line wire line)

  abbrev pub is_done : SseLine Real → Bool
  is_done done = true
  is_done skipped = false
  is_done bad = false
  is_done shapeless = false
  is_done (chunk c) = false

  -- Some line is the mark of the end.
  abbrev pub has_done : List (Real × List ℕ) → Bool
  has_done lines = any (λ l. is_done (read_line wire l.1)) lines

  -- A stretch of lines has deltas for events. Unless it fails, it leaves the reply of its pieces; without
  -- the mark it fails.
  pub record Consumed (fs : List Fragment) (marked : Bool) (r : Reply Real) (s : Streamed Real)
      : Type 0 where
    pub deltas : All IsDelta s.events
    pub read : s.failure ≡ none → Read fs r s.events s.reply
    pub cut : marked ≡ false → s.failure ≢ none

  stopped :
      (fs : List Fragment) (b : Bool) (r q : Reply Real) (f : Raised)
      → Consumed fs b r (raised_with q f)
  stopped fs b r q f = record { deltas = tt; read = λ e. cc; cut = λ h e. cc }

  after_feed-Consumed :
      (now : Real) (c : Chunk Real) (r : Reply Real) (rest : Reply Real → Streamed Real)
      (fs : List Fragment) (b : Bool)
      → ((q : Reply Real) → Consumed fs b q (rest q))
      → (o : Option (List ℕ))
      → Consumed (unless_failed c fs o) b r (after_feed wire r rest (feed_unless now c r o))
  unfolding feed_unless start_chunk
  after_feed-Consumed now c r rest fs b ih (some m) = stopped [] b r r (model_error server)
  after_feed-Consumed now c r rest fs b ih none =
      let q = feed_choices now (start_chunk c r) c.choices in
      elim (Bool-cases (raises c.choices)) [
        | inl y ↦ rw y (stopped (fragments_of c.choices ++ fs) b r q other_error)
        | inr n ↦
            let h = feed_choices-Read Real now c.choices (start_chunk c r) n in
            rw n (record {
              deltas = All-append Real (events_of c.choices) _ h.deltas (ih q).deltas;
              read = λ e.
                  Read-append Real
                    (record {
                      pieces = h.pieces;
                      deltas = h.deltas;
                      speech = h.speech;
                      think = h.think;
                    })
                    ((ih q).read e);
              cut = (ih q).cut;
            })
      ]

  after_line-Consumed :
      (now : Real) (r : Reply Real) (rest : Reply Real → Streamed Real) (fs : List Fragment)
      (b : Bool)
      → ((q : Reply Real) → Consumed fs b q (rest q))
      → (l : SseLine Real)
      → Consumed (line_fragments fs l) (is_done l || b) r (after_line wire now r rest l)
  unfolding after_line feed
  after_line-Consumed now r rest fs b ih skipped = ih r
  after_line-Consumed now r rest fs b ih done = record {
    deltas = tt;
    read = λ e. Read-nil Real r;
    cut = λ h. cc;
  }
  after_line-Consumed now r rest fs b ih bad = stopped [] b r r (model_error server)
  after_line-Consumed now r rest fs b ih shapeless = stopped [] b r r other_error
  after_line-Consumed now r rest fs b ih (chunk c) =
      after_feed-Consumed now c r rest fs b ih c.failed

  pub read_lines-Consumed :
      (lines : List (Real × List ℕ)) (r : Reply Real)
      → Consumed (streamed_fragments lines) (has_done lines) r (read_lines wire lines r)
  unfolding read_lines streamed_fragments
  read_lines-Consumed [] r = stopped [] false r r (model_error transport)
  read_lines-Consumed ((now, line) ∷ lines) r =
      after_line-Consumed now r (λ q. read_lines wire lines q) (streamed_fragments lines)
        (has_done lines) (λ q. read_lines-Consumed lines q) (read_line wire line)
