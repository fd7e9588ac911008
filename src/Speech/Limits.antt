-- ===== src/Speech/Limits.antt =====
-- With a limit above zero the loops end before their fuel runs out, and less than the limit is held back;
-- nothing blank is spoken.
use doll_os.Prelude.{
  ℕ, zero, suc, ◌+◌, ◌-◌, ◌≤◌, ◌<◌, ◌≡◌, refl, sym, ap, ◌∙◌, inl, inr, Bool, true, List, [], ◌∷◌,
  ◌++◌, arith, length, take, drop, All, leb, Bool-cases,
}
use doll_os.Speech.Content.{ink, all_ink, feed_all-ink}
use doll_os.Speech.{
  Chunks, Look, wait, pass, close, look_half, look, speakable, emit, scan, last_space, cut_at,
  force, feed, flush, feed_all,
}

length-drop {ℓ} : {A : Type ℓ} (n : ℕ) (xs : List A) → length (drop n xs) ≡ length xs - n
length-drop zero xs = omega arith
length-drop (suc n) [] = omega arith
length-drop (suc n) (x ∷ xs) = omega (arith, length-drop n xs)

-- How far a look goes on.
abbrev moves : Look → ℕ
moves wait = 1
moves (pass k) = k
moves (close k) = k

moves-look : (s : List ℕ) → 0 < moves (look s)
unfolding look look_half
moves-look [] = omega arith
moves-look (c ∷ s) = ground arith

last_space-le : (n : ℕ) (s : List ℕ) → last_space n s ≤ n
unfolding last_space
last_space-le zero s = omega arith
last_space-le (suc n) [] = omega arith
last_space-le (suc n) (c ∷ s) = ground (arith, last_space-le n s)

cut_at_bounds :
    (max_chars : ℕ) (s : List ℕ)
    → 0 < max_chars
    → (0 < cut_at max_chars s) × (cut_at max_chars s ≤ max_chars + 1)
unfolding cut_at
cut_at_bounds max_chars s h = ground (arith, last_space-le (suc max_chars) s)

module _ (blank : ℕ → Bool) where
  buf-emit : (s : List ℕ) (r : Chunks) → (emit blank s r).buf ≡ r.buf
  unfolding emit
  buf-emit s r = elim (Bool-cases (speakable blank s)) [ inl y ↦ rw y refl | inr n ↦ rw n refl ]

  ended-emit : (s : List ℕ) (r : Chunks) → (emit blank s r).ended ≡ r.ended
  unfolding emit
  ended-emit s r = elim (Bool-cases (speakable blank s)) [ inl y ↦ rw y refl | inr n ↦ rw n refl ]

  -- The first loop ends on fuel that covers the text.
  scan-ended :
      (fuel : ℕ) (seen rest : List ℕ)
      → length rest ≤ fuel
      → (scan blank fuel seen rest).ended ≡ true
  unfolding scan
  scan-ended zero seen [] f = refl
  scan-ended zero seen (c ∷ rest) f = absurd (omega arith)
  scan-ended (suc fuel) seen rest f = by_look (look rest) refl (scan-ended fuel)
    where
      by_look :
          (l : Look)
          → look rest ≡ l
          → ((a b : List ℕ) → length b ≤ fuel → (scan blank fuel a b).ended ≡ true)
          → (scan blank (suc fuel) seen rest).ended ≡ true
      by_look wait e ih = rw (e, scan) refl
      by_look (pass k) e ih =
          let m : k ≡ moves (look rest) = sym (ap moves e) in
          rw (e, scan)
            (ih (seen ++ take k rest) (drop k rest)
              (omega (arith, length-drop k rest, moves-look rest)))
      by_look (close k) e ih =
          let m : k ≡ moves (look rest) = sym (ap moves e) in
          rw (e, scan)
            (ended-emit (seen ++ take k rest) (scan blank fuel [] (drop k rest))
              ∙ ih [] (drop k rest) (omega (arith, length-drop k rest, moves-look rest)))

  force-lt :
      (max_chars fuel : ℕ) (s : List ℕ)
      → 0 < max_chars
      → length s ≤ fuel
      → length (force blank max_chars fuel s).buf < max_chars
  unfolding force
  force-lt max_chars zero s pos h = omega arith
  force-lt max_chars (suc fuel) s pos h = elim (Bool-cases (leb max_chars (length s))) [
    | inl long ↦
        let k = cut_at max_chars s in
        rw (long, force, buf-emit (take k s) (force blank max_chars fuel (drop k s)))
          (force-lt max_chars fuel (drop k s) pos
            (omega (arith, length-drop k s, cut_at_bounds max_chars s pos)))
    | inr short ↦ rw (short, force) (ground arith)
  ]

  force-ended :
      (max_chars fuel : ℕ) (s : List ℕ)
      → 0 < max_chars
      → length s ≤ fuel
      → (force blank max_chars fuel s).ended ≡ true
  unfolding force
  force-ended max_chars zero s pos h = ground arith
  force-ended max_chars (suc fuel) s pos h = elim (Bool-cases (leb max_chars (length s))) [
    | inl long ↦
        let k = cut_at max_chars s in
        rw (long, force, ended-emit (take k s) (force blank max_chars fuel (drop k s)))
          (force-ended max_chars fuel (drop k s) pos
            (omega (arith, length-drop k s, cut_at_bounds max_chars s pos)))
    | inr short ↦ rw (short, force) refl
  ]

  -- With a limit above zero, whatever is held and whatever text comes: both loops of `feed` end, neither
  -- of them for want of fuel, and what is then held back is shorter than the limit.
  pub feed-ended :
      (max_chars : ℕ) (buf text : List ℕ)
      → 0 < max_chars
      → ((feed blank max_chars buf text).ended ≡ true)
        × (length (feed blank max_chars buf text).buf < max_chars)
  unfolding feed
  feed-ended max_chars buf text pos =
      let r = scan blank (length (buf ++ text)) [] (buf ++ text) in
      (
        simp
            (
              scan-ended (length (buf ++ text)) [] (buf ++ text) (omega arith),
              force-ended max_chars (length r.buf) r.buf pos (omega arith),
            )
            refl,
        force-lt max_chars _ r.buf pos (omega arith),
      )

  -- Every `feed` of a reply ends.
  abbrev pub AllEnded : ℕ → List ℕ → List (List ℕ) → Type 0
  AllEnded max_chars buf [] = Unit
  AllEnded max_chars buf (text ∷ texts) =
      ((feed blank max_chars buf text).ended ≡ true)
      × AllEnded max_chars (feed blank max_chars buf text).buf texts

  feed_all-AllEnded :
      (max_chars : ℕ) (buf : List ℕ) (texts : List (List ℕ))
      → 0 < max_chars
      → AllEnded max_chars buf texts
  feed_all-AllEnded max_chars buf [] pos = tt
  feed_all-AllEnded max_chars buf (text ∷ texts) pos = (
    (feed-ended max_chars buf text pos).0,
    feed_all-AllEnded max_chars (feed blank max_chars buf text).buf texts pos,
  )

  -- With a limit above zero, however a reply is split into texts: each of them is taken in, and up to
  -- white space the pieces that are spoken, the flush at the end included, are what was held and the
  -- reply, each code point once and in its place.
  pub feed_all-said :
      (max_chars : ℕ) (texts : List (List ℕ)) (buf : List ℕ)
      → 0 < max_chars
      → AllEnded max_chars buf texts
        × (all_ink blank (feed_all blank max_chars buf texts)
            ≡ ink blank buf ++ all_ink blank texts)
  feed_all-said max_chars texts buf pos =
      (feed_all-AllEnded max_chars buf texts pos, feed_all-ink blank max_chars texts buf)

  abbrev pub AllSpeakable : List (List ℕ) → Type 0
  AllSpeakable = All (λ s. speakable blank s ≡ true)

  AllSpeakable-append :
      (a b : List (List ℕ)) → AllSpeakable a → AllSpeakable b → AllSpeakable (a ++ b)
  AllSpeakable-append [] b p q = q
  AllSpeakable-append (s ∷ a) b p q = (p.0, AllSpeakable-append a b p.1 q)

  emit-AllSpeakable :
      (s : List ℕ) (r : Chunks) → AllSpeakable r.out → AllSpeakable (emit blank s r).out
  unfolding emit
  emit-AllSpeakable s r h = elim (Bool-cases (speakable blank s)) [
    | inl y ↦ rw y (y, h)
    | inr n ↦ rw n h
  ]

  scan-AllSpeakable : (fuel : ℕ) (seen rest : List ℕ) → AllSpeakable (scan blank fuel seen rest).out
  unfolding scan
  scan-AllSpeakable zero seen [] = tt
  scan-AllSpeakable zero seen (c ∷ rest) = tt
  scan-AllSpeakable (suc fuel) seen rest = by_look (look rest) refl (scan-AllSpeakable fuel)
    where
      by_look :
          (l : Look)
          → look rest ≡ l
          → ((a b : List ℕ) → AllSpeakable (scan blank fuel a b).out)
          → AllSpeakable (scan blank (suc fuel) seen rest).out
      by_look wait e ih = rw (e, scan) tt
      by_look (pass k) e ih = rw (e, scan) (ih (seen ++ take k rest) (drop k rest))
      by_look (close k) e ih =
          rw (e, scan)
            (emit-AllSpeakable (seen ++ take k rest) (scan blank fuel [] (drop k rest))
              (ih [] (drop k rest)))

  force-AllSpeakable :
      (max_chars fuel : ℕ) (s : List ℕ) → AllSpeakable (force blank max_chars fuel s).out
  unfolding force
  force-AllSpeakable max_chars zero s = tt
  force-AllSpeakable max_chars (suc fuel) s = elim (Bool-cases (leb max_chars (length s))) [
    | inl long ↦
        let k = cut_at max_chars s in
        rw (long, force)
          (emit-AllSpeakable (take k s) (force blank max_chars fuel (drop k s))
            (force-AllSpeakable max_chars fuel (drop k s)))
    | inr short ↦ rw (short, force) tt
  ]

  -- No piece that is spoken is white space alone.
  pub feed_all-AllSpeakable :
      (max_chars : ℕ) (texts : List (List ℕ)) (buf : List ℕ)
      → AllSpeakable (feed_all blank max_chars buf texts)
  unfolding feed_all feed flush
  feed_all-AllSpeakable max_chars [] buf =
      emit-AllSpeakable buf (record { out = []; buf = []; ended = true }) tt
  feed_all-AllSpeakable max_chars (text ∷ texts) buf =
      let fuel = length (buf ++ text) in
      let r = scan blank fuel [] (buf ++ text) in
      let q = force blank max_chars (length r.buf) r.buf in
      AllSpeakable-append (r.out ++ q.out) (feed_all blank max_chars q.buf texts)
        (AllSpeakable-append r.out q.out (scan-AllSpeakable fuel [] (buf ++ text))
          (force-AllSpeakable max_chars (length r.buf) r.buf))
        (feed_all-AllSpeakable max_chars texts q.buf)
