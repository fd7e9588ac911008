-- ===== src/Speech/Examples.antt =====
-- The chunker on short replies; white space is the blank and the newline.
use doll_os.Prelude.{ℕ, ◌<◌, ◌≡◌, refl, false, true, length, List, [], ◌∷◌, ◌++◌, arith}
use doll_os.Speech.{space, feed, feed_all}
use doll_os.Speech.Content.{ink, all_ink}
use doll_os.Speech.Limits.{AllEnded, feed_all-said, feed-ended}

-- "3.1" "4 b. " "c"
abbrev reply : List (List ℕ)
reply = (b'3' ∷ b'.' ∷ b'1' ∷ []) ∷ (b'4' ∷ 32 ∷ b'b' ∷ b'.' ∷ 32 ∷ []) ∷ (b'c' ∷ []) ∷ []

sentences :
    feed_all space 120 [] reply
    ≡ (b'3' ∷ b'.' ∷ b'1' ∷ b'4' ∷ 32 ∷ b'b' ∷ b'.' ∷ 32 ∷ []) ∷ (b'c' ∷ []) ∷ []
unfolding feed_all
sentences = refl

-- A limit of two cuts after the last blank, or at the limit.
forced :
    feed_all space 2 [] ((b'a' ∷ 32 ∷ b'b' ∷ b'c' ∷ b'd' ∷ []) ∷ [])
    ≡ (b'a' ∷ 32 ∷ []) ∷ (b'b' ∷ b'c' ∷ []) ∷ (b'd' ∷ []) ∷ []
unfolding feed_all
forced = refl

-- With a limit of zero the loop of the source does not end, and here the fuel runs out.
no_limit : (feed space 0 [] (b'a' ∷ [])).ended ≡ false
unfolding feed
no_limit = refl

feed_all-said_example :
    AllEnded space 120 [] reply
    × (all_ink space (feed_all space 120 [] reply) ≡ ink space [] ++ all_ink space reply)
feed_all-said_example = feed_all-said space 120 reply [] (omega arith)

feed-ended_example :
    ((feed space 2 [] (b'a' ∷ b'.' ∷ b'b' ∷ [])).ended ≡ true)
    × (length (feed space 2 [] (b'a' ∷ b'.' ∷ b'b' ∷ [])).buf < 2)
feed-ended_example = feed-ended space 2 [] (b'a' ∷ b'.' ∷ b'b' ∷ []) (omega arith)
