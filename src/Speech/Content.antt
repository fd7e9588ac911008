-- ===== src/Speech/Content.antt =====
-- Nothing that Doll says is lost, repeated or reordered on the way to speech.
use doll_os.Prelude.{
  ℕ, zero, suc, ◌≡◌, refl, sym, ap, ◌∙◌, Bool, true, false, not, List, [], ◌∷◌, ◌++◌, arith, length,
  take, drop, keep, keep-append, take-append-drop, Bool-cases, inl, inr, leb,
}
use mathlib.Core.List.{append_assoc, append-nil}
use doll_os.Speech.{
  Chunks, Look, wait, pass, close, look, speakable, emit, scan, cut_at, force, feed, flush,
  feed_all,
}

module _ (blank : ℕ → Bool) where
  -- The code points of a text that are no white space.
  abbrev pub ink : List ℕ → List ℕ
  ink s = keep (λ c. not (blank c)) s

  -- The ink of a list of pieces, one after the other.
  abbrev pub all_ink : List (List ℕ) → List ℕ
  all_ink [] = []
  all_ink (s ∷ ss) = ink s ++ all_ink ss

  abbrev held : Chunks → List ℕ
  held r = all_ink r.out ++ ink r.buf

  all_ink-append : (a b : List (List ℕ)) → all_ink (a ++ b) ≡ all_ink a ++ all_ink b
  all_ink-append [] b = refl
  all_ink-append (s ∷ a) b =
      ap (λ t. ink s ++ t) (all_ink-append a b) ∙ sym (append_assoc (ink s) (all_ink a) (all_ink b))

  ink_blank : (s : List ℕ) → speakable blank s ≡ false → ink s ≡ []
  unfolding speakable
  ink_blank [] h = refl
  ink_blank (c ∷ s) h = ground (arith, ink_blank s)

  held-emit : (s : List ℕ) (r : Chunks) → held (emit blank s r) ≡ ink s ++ held r
  unfolding emit
  held-emit s r = elim (Bool-cases (speakable blank s)) [
    | inl yes_ ↦ rw yes_ (append_assoc (ink s) (all_ink r.out) (ink r.buf))
    | inr silent ↦ rw (silent, ink_blank s silent) refl
  ]

  -- A text split at `k`, behind `seen`, is the whole.
  split_back : (k : ℕ) (seen rest : List ℕ) → (seen ++ take k rest) ++ drop k rest ≡ seen ++ rest
  split_back k seen rest =
      append_assoc seen (take k rest) (drop k rest) ∙ ap (λ t. seen ++ t) (take-append-drop k rest)

  held-scan :
      (fuel : ℕ) (seen rest : List ℕ) → held (scan blank fuel seen rest) ≡ ink (seen ++ rest)
  unfolding scan
  held-scan zero seen [] = refl
  held-scan zero seen (c ∷ rest) = refl
  held-scan (suc fuel) seen rest = by_look (look rest) refl (held-scan fuel)
    where
      by_look :
          (l : Look)
          → look rest ≡ l
          → ((a b : List ℕ) → held (scan blank fuel a b) ≡ ink (a ++ b))
          → held (scan blank (suc fuel) seen rest) ≡ ink (seen ++ rest)
      by_look wait e ih = rw (e, scan) refl
      by_look (pass k) e ih =
          rw (e, scan) (ih (seen ++ take k rest) (drop k rest) ∙ ap ink (split_back k seen rest))
      by_look (close k) e ih =
          rw (e, scan)
            (held-emit (seen ++ take k rest) (scan blank fuel [] (drop k rest))
              ∙ ap (λ t. ink (seen ++ take k rest) ++ t) (ih [] (drop k rest))
              ∙ sym (keep-append (λ c. not (blank c)) (seen ++ take k rest) (drop k rest))
              ∙ ap ink (split_back k seen rest))

  held-force : (max_chars fuel : ℕ) (s : List ℕ) → held (force blank max_chars fuel s) ≡ ink s
  unfolding force
  held-force max_chars zero s = refl
  held-force max_chars (suc fuel) s = elim (Bool-cases (leb max_chars (length s))) [
    | inl long ↦
        let k = cut_at max_chars s in
        rw (long, force)
          (held-emit (take k s) (force blank max_chars fuel (drop k s))
            ∙ ap (λ t. ink (take k s) ++ t) (held-force max_chars fuel (drop k s))
            ∙ sym (keep-append (λ c. not (blank c)) (take k s) (drop k s))
            ∙ ap ink (take-append-drop k s))
    | inr short ↦ rw (short, force) refl
  ]

  held-feed :
      (max_chars : ℕ) (buf text : List ℕ) → held (feed blank max_chars buf text) ≡ ink (buf ++ text)
  unfolding feed
  held-feed max_chars buf text =
      let r = scan blank (length (buf ++ text)) [] (buf ++ text) in
      let q = force blank max_chars (length r.buf) r.buf in
      ap (λ t. t ++ ink q.buf) (all_ink-append r.out q.out)
      ∙ append_assoc (all_ink r.out) (all_ink q.out) (ink q.buf)
      ∙ ap (λ t. all_ink r.out ++ t) (held-force max_chars (length r.buf) r.buf)
      ∙ held-scan (length (buf ++ text)) [] (buf ++ text)

  all_ink-emit : (s : List ℕ) (r : Chunks) → all_ink (emit blank s r).out ≡ ink s ++ all_ink r.out
  unfolding emit
  all_ink-emit s r = elim (Bool-cases (speakable blank s)) [
    | inl yes_ ↦ rw yes_ refl
    | inr silent ↦ rw (silent, ink_blank s silent) refl
  ]

  all_ink-flush : (buf : List ℕ) → all_ink (flush blank buf) ≡ ink buf
  unfolding flush
  all_ink-flush buf =
      all_ink-emit buf (record { out = []; buf = []; ended = true }) ∙ append-nil (ink buf)

  -- What is spoken of the texts behind a buffer is their ink.
  pub feed_all-ink :
      (max_chars : ℕ) (texts : List (List ℕ)) (buf : List ℕ)
      → all_ink (feed_all blank max_chars buf texts) ≡ ink buf ++ all_ink texts
  unfolding feed_all
  feed_all-ink max_chars [] buf = all_ink-flush buf ∙ sym (append-nil (ink buf))
  feed_all-ink max_chars (text ∷ texts) buf =
      let r = feed blank max_chars buf text in
      all_ink-append r.out (feed_all blank max_chars r.buf texts)
      ∙ ap (λ t. all_ink r.out ++ t) (feed_all-ink max_chars texts r.buf)
      ∙ sym (append_assoc (all_ink r.out) (ink r.buf) (all_ink texts))
      ∙ ap (λ t. t ++ all_ink texts) (held-feed max_chars buf text)
      ∙ ap (λ t. t ++ all_ink texts) (keep-append (λ c. not (blank c)) buf text)
      ∙ append_assoc (ink buf) (ink text) (all_ink texts)
