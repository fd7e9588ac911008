-- ===== src/Conversations/Examples.antt =====
-- Conversations with a hash that is the text, a budget of 100 tokens and two channels.
use doll_os.Prelude.{
  eq_iff, ◌≡◌, refl, String, Bool, true, false, none, some, List, [], ◌∷◌, drop, length, ◌-◌, arith,
}
use doll_os.Conversations.{
  sent, Turn, Builder, turns, Conversation, get_page, run_turn, system, not_in_memory, user,
}
use doll_os.Conversations.Order.{keys}
use doll_os.Conversations.Recent.{Valid, uses, turns-recent}
use doll_os.Conversations.Pages.{Continues, Kept, turns-continue}

abbrev hash : String → String
hash s = s

abbrev turn_of : String → Bool → Turn
turn_of key read = record {
  key = key;
  is_stranger = false;
  system_text = "system";
  tools_json = "tools";
  snapshot = "snapshot";
  delta = "delta";
  appended = sent "reply" ∷ [];
  usages = some (record { prompt_tokens = some 30; completion_tokens = some 9 }) ∷ [];
  read_untrusted = read;
  failed = false;
}

abbrev start : Builder
start = record { private_page = none; channels = [] }

abbrev visits : List Turn
visits =
    turn_of "a" true
    ∷ turn_of "b" false
    ∷ turn_of "private" false
    ∷ turn_of "a" false
    ∷ turn_of "c" false
    ∷ []

visits-keys : keys (turns hash 100 2 visits start).channels ≡ "a" ∷ "c" ∷ []
unfolding turns
visits-keys = refl

turns-recent_example :
    keys (turns hash 100 2 visits start).channels
    ≡ drop (length (uses visits []) - 2) (uses visits [])
turns-recent_example = turns-recent hash 100 2 visits start refl

-- The page of `a` behind its first turn, which read untrusted content.
abbrev page : Conversation
page = record {
  key = "a";
  epoch = 1;
  tools_hash = "tools";
  system_hash = "system";
  messages = system "system" ∷ user "snapshot" ∷ user "delta" ∷ sent "reply" ∷ [];
  prior_tokens = 39;
  server_error = false;
  tainted = true;
}

abbrev held : Builder
held = record { private_page = none; channels = ("a", page) ∷ [] }

held-run : (run_turn hash 100 2 (turn_of "a" true) start).1 ≡ held
unfolding turns run_turn
held-run = refl

held-kept :
    (run_turn hash 100 2 (turn_of "a" false) (run_turn hash 100 2 (turn_of "b" false) held).1).0
    ≡ (true, none)
unfolding turns run_turn
held-kept = refl

held-Valid : Valid hash 100 2 held
held-Valid = record { distinct = (refl, tt); few = omega arith }

held-page : get_page hash 100 2 "a" held ≡ some page
unfolding get_page
held-page = refl

held-Kept : Kept hash 100 2 "a" (turn_of "b" false ∷ turn_of "a" false ∷ []) held
unfolding turns run_turn
held-Kept = (λ e. absurd (ground (arith, (eq_iff "b" "a").1 e)), ((λ e. refl), tt))

start-reason : (run_turn hash 100 2 (turn_of "a" true) start).0.1 ≡ some not_in_memory
unfolding turns run_turn
start-reason = refl

turns-continue_example :
    Continues hash 100 2 page
      (get_page hash 100 2 "a" (turns hash 100 2 (turn_of "b" false ∷ turn_of "a" false ∷ []) held))
turns-continue_example =
    turns-continue hash 100 2 (turn_of "b" false ∷ turn_of "a" false ∷ []) held "a" page held-Valid
      held-page held-Kept
