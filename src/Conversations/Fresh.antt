-- ===== src/Conversations/Fresh.antt =====
-- A new page.
use doll_os.Prelude.{ℕ, ◌+◌, ◌<◌, ◌≡◌, refl, String, false, Option, none, some, arith}
use doll_os.Conversations.{
  Conversation, Builder, Turn, store, open_page, begin_turn, amend, run_turn, PageReason,
  page_reason, get_page, fresh_page, after_turn, starts_tainted, next_epoch,
}
use doll_os.Conversations.Lookup.{get-amend_self, get-store_self}

module _ (sha256 : String → String) (budget max_channels : ℕ) where
  after_fresh :
      (t : Turn) (n : ℕ)
      → starts_tainted sha256 budget max_channels t (fresh_page sha256 budget max_channels t n)
        ≡ false
  unfolding fresh_page
  after_fresh t n = refl

  stored-fresh :
      (t : Turn) (b : Builder) (n : ℕ)
      → 0 < max_channels
      → get_page sha256 budget max_channels t.key (
          amend sha256 budget max_channels t.key
            (after_turn sha256 budget max_channels t (fresh_page sha256 budget max_channels t n))
            (store sha256 budget max_channels (fresh_page sha256 budget max_channels t n) b))
        ≡ some (after_turn sha256 budget max_channels t (fresh_page sha256 budget max_channels t n))
  unfolding fresh_page
  stored-fresh t b n h =
      get-amend_self sha256 budget max_channels t.key _ _ _
        (get-store_self sha256 budget max_channels (fresh_page sha256 budget max_channels t n) b h)

  open-fresh :
      (t : Turn) (b : Builder) (r : PageReason) (o : Option Conversation) (e : Option PageReason)
      → 0 < max_channels
      → (open_page sha256 budget max_channels t b o e).0.1 ≡ some r
      → (starts_tainted sha256 budget max_channels t
            (open_page sha256 budget max_channels t b o e).0.0
          ≡ false)
        × (get_page sha256 budget max_channels t.key (
              amend sha256 budget max_channels t.key
                (after_turn sha256 budget max_channels t
                  (open_page sha256 budget max_channels t b o e).0.0)
                (open_page sha256 budget max_channels t b o e).1)
            ≡ some (
                after_turn sha256 budget max_channels t (
                  fresh_page sha256 budget max_channels t
                    (next_epoch sha256 budget max_channels o))))
  unfolding open_page
  open-fresh t b r (some c) none h q = absurd (ground (arith, q))
  open-fresh t b r none e h q = (after_fresh t 1, stored-fresh t b 1 h)
  open-fresh t b r (some c) (some e) h q =
      (after_fresh t (c.epoch + 1), stored-fresh t b (c.epoch + 1) h)

  -- A turn that opens a new page starts untainted, and its conversation has nothing but the page and
  -- what the turn brings.
  pub run_turn-fresh :
      (t : Turn) (b : Builder) (r : PageReason)
      → 0 < max_channels
      → (run_turn sha256 budget max_channels t b).0.1 ≡ some r
      → ((run_turn sha256 budget max_channels t b).0.0 ≡ false)
        × (get_page sha256 budget max_channels t.key (run_turn sha256 budget max_channels t b).1
            ≡ some (
                after_turn sha256 budget max_channels t (
                  fresh_page sha256 budget max_channels t (
                    next_epoch sha256 budget max_channels
                      (get_page sha256 budget max_channels t.key b)))))
  unfolding run_turn begin_turn
  run_turn-fresh t b r h =
      open-fresh t b r (get_page sha256 budget max_channels t.key b)
        (page_reason sha256 budget max_channels (sha256 t.tools_json) (sha256 t.system_text)
          (get_page sha256 budget max_channels t.key b))
        h
