-- ===== src/Attention/Examples.antt =====
-- The gate on concrete channels: times are seconds, and a window loses ten with each reply.
use mathlib.Core.Bool.{xor}
use doll_os.Prelude.{ℕ, ◌-◌, ◌≡◌, refl, true, false, none, some, List, [], ◌∷◌, arith, ltb, leb}
use doll_os.Prelude.Dict.{get, put}
use doll_os.Attention.Names.{Unicode, name_match}
use doll_os.Attention.{Reals, Event, Config, Sessions, l0_signal, admit}
use doll_os.Attention.Budget.{Happening, message, reply, run, run-disengages}

abbrev seconds : Reals
seconds = record { Real = ℕ; sub = ◌-◌; mul = λ w d. w - d; less = ltb; at_least = λ a b. leb b a }

abbrev ascii : Unicode
ascii = record { is_word = λ c. leb b'a' c; fold = λ c. c }

abbrev config : Config ascii seconds
config = record {
  always_wake = [];
  max_session_turns = 2;
  window_base_s = 60;
  window_decay = 10;
  debounce_engaged_s = 2;
  debounce_cold_s = 20;
}

abbrev tagged : Event
tagged = record {
  channel_id = some "general";
  author_id = some "ann";
  content = [];
  is_dm = false;
  mentioned = true;
  reply_to_bot = false;
}

abbrev plain : Event
plain = record tagged { mentioned = false }

abbrev opened : Sessions ascii seconds
opened =
    (
      "general",
      record {
        channel = "general";
        participants = some "ann" ∷ [];
        last_activity = 100;
        turn_count = 0;
        window_s = 60;
      },
    )
    ∷ []

mention_opens : (admit ascii seconds config [] tagged 100 []).1 ≡ opened
unfolding admit get put
mention_opens = refl

word_matches : name_match ascii (b'a' ∷ 32 ∷ b'b' ∷ []) ((b'b' ∷ []) ∷ []) ≡ true
unfolding name_match xor
word_matches = refl

part_of_word_does_not : name_match ascii (b'b' ∷ b'a' ∷ []) ((b'b' ∷ []) ∷ []) ≡ false
unfolding name_match xor
part_of_word_does_not = refl

abbrev two_replies : List (Happening ℕ)
two_replies = reply "general" ∷ message [] plain 120 ∷ reply "general" ∷ []

run-disengages_example :
    (get (run ascii seconds config two_replies opened) "general" ≡ none)
    × ((aliases : List (List ℕ)) (e : Event) (now : ℕ)
        → e.channel_id ≡ some "general"
        → l0_signal ascii seconds config aliases e ≡ none
        → (admit ascii seconds config aliases e now
            (run ascii seconds config two_replies opened)).0.admitted
          ≡ false)
unfolding l0_signal name_match
run-disengages_example =
    run-disengages ascii seconds config "general" two_replies opened (omega arith) ((λ h. refl), tt)
      (omega arith)
