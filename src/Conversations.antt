-- ===== src/Conversations.antt =====
-- src/dollos/mind/context_builder.py: one append-only conversation per place, and what a turn of
-- src/dollos/mind/mind_loop.py does with it. Rendering, what a page has shown (`Seen`) and tracing are
-- left out; the texts are inputs.
pub mod Order
pub mod Recent
pub mod Lookup
pub mod Pages
pub mod Fresh
mod Examples
use doll_os.Prelude.{
  ℕ, suc, ◌+◌, String, Bool, true, false, not, ◌&&◌, ◌||◌, Option, none, some, List, [], ◌∷◌, ◌++◌,
  ◌==◌, ltb, leb, length, if◌then◌else◌,
}
use doll_os.Prelude.Dict.{Dict, get, put, remove, has}

-- A message; one of the assistant or of a tool stands for its JSON.
pub data Message : Type 0 where
  system user sent : String → Message

pub record Usage : Type 0 where
  pub prompt_tokens : Option ℕ
  pub completion_tokens : Option ℕ

pub record Conversation : Type 0 where
  pub key : String
  pub epoch : ℕ
  pub tools_hash : String
  pub system_hash : String
  pub messages : List Message
  pub prior_tokens : ℕ
  pub server_error : Bool
  pub tainted : Bool

abbrev pub or_zero : Option ℕ → ℕ
or_zero none = 0
or_zero (some n) = n

-- `Conversation.record_usage`, for `End` or `None`.
unfoldable pub record_usage : Option Usage → Conversation → Conversation
record_usage none c = c
record_usage (some u) c = elim u.prompt_tokens [
  | none ↦ c
  | some n ↦ record c { prior_tokens = n + or_zero u.completion_tokens }
]

unfoldable pub record_all : List (Option Usage) → Conversation → Conversation
unfolding record_usage
record_all [] c = c
record_all (u ∷ us) c = record_all us (record_usage u c)

-- `ContextBuilder`: the channels, the least recently used one first.
pub record Builder : Type 0 where
  pub private_page : Option Conversation
  pub channels : Dict Conversation

pub data PageReason : Type 0 where
  not_in_memory prefix_changed budget_reached server_failed : PageReason

-- `while len(channels) > limit: channels.popitem(last=False)`
unfoldable pub evict {ℓ} : {A : Type ℓ} → ℕ → List A → List A
evict limit [] = []
evict limit (x ∷ xs) =
    let rest = evict limit xs in if ltb limit (length (x ∷ xs)) then rest else x ∷ xs

-- `channels.move_to_end(key)`
unfoldable pub move_to_end {ℓ} : {V : Type ℓ} → String → Dict V → Dict V
unfolding get remove
move_to_end key d = elim (get d key) [ none ↦ d | some v ↦ remove d key ++ (key, v) ∷ [] ]

-- What a turn brings to its conversation: `appended` and `usages` are what the passes of its runner
-- append and report, `read_untrusted` says that a call of it read untrusted content, `failed` that it
-- ended with an error of the server.
pub record Turn : Type 0 where
  pub key : String
  pub is_stranger : Bool
  pub system_text : String
  pub tools_json : String
  pub snapshot : String
  pub delta : String
  pub appended : List Message
  pub usages : List (Option Usage)
  pub read_untrusted : Bool
  pub failed : Bool

module _ (sha256 : String → String) (budget max_channels : ℕ) where
  -- `ContextBuilder.get`
  unfoldable pub get_page : String → Builder → Option Conversation
  unfolding get
  get_page key b = if key == "private" then b.private_page else get b.channels key

  -- Why the page is new.
  unfoldable pub page_reason : String → String → Option Conversation → Option PageReason
  page_reason t_hash s_hash none = some not_in_memory
  page_reason t_hash s_hash (some c) =
      if not (c.tools_hash == t_hash && c.system_hash == s_hash)
      then some prefix_changed
      else if leb budget c.prior_tokens
      then some budget_reached
      else if c.server_error
      then some server_failed
      else none

  abbrev pub next_epoch : Option Conversation → ℕ
  next_epoch none = 1
  next_epoch (some c) = c.epoch + 1

  unfoldable pub touch : String → Builder → Builder
  unfolding move_to_end
  touch key b = if key == "private" then b else record b { channels = move_to_end key b.channels }

  unfoldable pub store : Conversation → Builder → Builder
  unfolding move_to_end put evict
  store c b =
      if c.key == "private"
      then record b { private_page = some c }
      else record b { channels = evict max_channels (move_to_end c.key (put b.channels c.key c)) }

  unfoldable pub fresh_page : Turn → ℕ → Conversation
  fresh_page t epoch = record {
    key = t.key;
    epoch = epoch;
    tools_hash = sha256 t.tools_json;
    system_hash = sha256 t.system_text;
    messages = system t.system_text ∷ user t.snapshot ∷ [];
    prior_tokens = 0;
    server_error = false;
    tainted = false;
  }

  -- Behind the test, on the page that there is.
  unfoldable pub open_page :
      Turn
      → Builder
      → Option Conversation
      → Option PageReason
      → (Conversation × Option PageReason) × Builder
  unfolding fresh_page touch store
  open_page t b (some c) none = ((c, none), touch t.key b)
  open_page t b c reason = let page = fresh_page t (next_epoch c) in ((page, reason), store page b)

  unfoldable pub begin_turn : Turn → Builder → (Conversation × Option PageReason) × Builder
  unfolding get_page page_reason open_page
  begin_turn t b =
      let c = get_page t.key b in
      open_page t b c (page_reason (sha256 t.tools_json) (sha256 t.system_text) c)

  -- The conversation is an object that the builder still holds, unless it dropped it.
  unfoldable pub amend : String → Conversation → Builder → Builder
  unfolding put
  amend key c b =
      if key == "private"
      then record b { private_page = some c }
      else if has b.channels key
      then record b { channels = put b.channels key c }
      else b

  -- The turn starts tainted on a tainted page, unless it is a stranger's.
  abbrev pub starts_tainted : Turn → Conversation → Bool
  starts_tainted t c = c.tainted && not t.is_stranger

  -- What the turn leaves in its conversation.
  unfoldable pub after_turn : Turn → Conversation → Conversation
  unfolding record_all
  after_turn t c =
      let tainted_end = starts_tainted t c || (t.read_untrusted && not t.is_stranger) in
      let recorded =
        record_all t.usages (record c { messages = c.messages ++ user t.delta ∷ t.appended }) in
      record recorded {
        server_error = recorded.server_error || t.failed;
        tainted = recorded.tainted || tainted_end;
      }

  -- Whether the turn starts tainted and why its page is new.
  unfoldable pub run_turn : Turn → Builder → (Bool × Option PageReason) × Builder
  unfolding begin_turn amend after_turn
  run_turn t b =
      let r = begin_turn t b in
      ((starts_tainted t r.0.0, r.0.1), amend t.key (after_turn t r.0.0) r.1)

  unfoldable pub turns : List Turn → Builder → Builder
  unfolding run_turn
  turns [] b = b
  turns (t ∷ ts) b = turns ts (run_turn t b).1
