-- ===== src/Profile/Additions.antt =====
-- An entry that is added, read back.
use doll_os.Prelude.{
  ℕ, ◌+◌, ◌≤◌, ◌≡◌, ◌≢◌, sym, ap, ◌∙◌, Bool, true, false, Option, none, some, List, [], ◌∷◌, ◌++◌,
  arith, if◌then◌else◌, All, some_inj,
}
use doll_os.Profile.{
  Text, Chars, Section, self, relationship, user, Bullet, Sections, bullets_of, set_bullets,
  prefix_of, parse, serialize,
}
use doll_os.Profile.Edits.{next_id, strip_incoming_tag, number_of, larger_of, greatest_number}
use doll_os.Profile.Apply.{
  PinAnswer, pinned, at_limit, add, Call, PinEvent, told, file_text, with_text, commit, add_unless,
  apply_add, apply_op, apply, new_bullet,
}
use doll_os.Profile.Bullets.{IsTable, IsBullet}
use doll_os.Profile.RoundTrip.{IsProfile, parse-serialize}
use doll_os.Profile.Found.{All-snoc}
use doll_os.Profile.Pins.{
  IsWritten, IsPinnable, parse-IsWritten, IsWritten-IsProfile, bullets-IsBullet,
  set_bullets-IsProfile, new_bullet-IsBullet,
}

larger_of-le :
    (o : Option ℕ) (g m : ℕ) → larger_of o g ≤ m → (g ≤ m) × ((n : ℕ) → o ≡ some n → n ≤ m)
larger_of-le none g m h = (h, λ n e. cc)
larger_of-le (some k) g m h = (omega (arith, h), λ n e. omega (arith, h, some_inj e))

module _ (chars : Chars) (table : IsTable chars) where
  open table use {numeral}

  number_of-show : (k : Section) (n : ℕ) → number_of chars k (prefix_of k ∷ chars.show n) ≡ some n
  number_of-show self n = (numeral n).3
  number_of-show relationship n = (numeral n).3
  number_of-show user n = (numeral n).3

  -- An id with a number above those of a section is in none of its entries.
  fresh_above :
      (k : Section) (m : ℕ) (bs : List Bullet)
      → greatest_number chars k bs ≤ m
      → All (λ b. b.id ≢ prefix_of k ∷ chars.show (m + 1)) bs
  fresh_above k m [] h = tt
  fresh_above k m (b ∷ bs) h =
      let le = larger_of-le (number_of chars k b.id) (greatest_number chars k bs) m h in
      (
        λ e.
            let n = le.1 (m + 1) (ap (number_of chars k) e ∙ number_of-show k (m + 1)) in
            absurd (omega (arith, n)),
        fresh_above k m bs le.0,
      )

  commit-reads :
      (limited : Bool) (file : Option Text) (s : Sections) (n : ℕ) (a b : PinAnswer) (e : PinEvent)
      → IsProfile chars table s
      → b ≢ at_limit n
      → (if limited
          then told (at_limit n) file
          else record { answer = a; file = some (serialize s); logged = e ∷ [] }).answer
        ≡ b
      → (a ≡ b)
        × (parse chars (
              file_text
                (if limited
                  then told (at_limit n) file
                  else record { answer = a; file = some (serialize s); logged = e ∷ [] }).file)
            ≡ s)
  commit-reads true file s n a b e h d q = absurd (d (sym q))
  commit-reads false file s n a b e h d q = (q, parse-serialize chars table s h)

  added :
      (k : Section) (o : Option Bullet) (s : Sections) (file : Option Text) (c : Call) (id : Text)
      → IsWritten chars table file s
      → IsPinnable chars table c
      → (add_unless chars o k s file c).answer ≡ pinned k id
      → (pinned k (new_bullet chars k s c).id ≡ pinned k id)
        × (parse chars (file_text (add_unless chars o k s file c).file)
            ≡ set_bullets k (bullets_of k s ++ new_bullet chars k s c ∷ []) s)
  unfolding commit
  added k (some b) s file c id w p q = cc
  added k none s file c id w p q =
      commit-reads _ file (set_bullets k (bullets_of k s ++ new_bullet chars k s c ∷ []) s) _ _
        (pinned k id) _
        (set_bullets-IsProfile chars table k (bullets_of k s ++ new_bullet chars k s c ∷ []) s
          (IsWritten-IsProfile chars table file s w)
          (All-snoc (IsBullet chars table) (bullets_of k s) (new_bullet chars k s c)
            (bullets-IsBullet chars table k s (IsWritten-IsProfile chars table file s w))
            (new_bullet-IsBullet chars table k s c p)))
        (λ e. cc) q

  -- An addition to a section that Doll is told was pinned, of a text that is one line and not empty, to a
  -- missing file or a written profile: no entry of the section had its id, and what is then read has the
  -- entry behind the section's others and is otherwise what was read before.
  pub add-reads :
      (file : Option Text) (s : Sections) (c : Call) (k : Section) (id : Text)
      → IsWritten chars table file s
      → IsPinnable chars table c
      → c.op ≡ add
      → c.section ≡ some k
      → (apply chars file c).answer ≡ pinned k id
      → All (λ b. b.id ≢ next_id chars k (bullets_of k s)) (bullets_of k s)
        × (pinned k (next_id chars k (bullets_of k s)) ≡ pinned k id)
        × (parse chars (file_text (apply chars file c).file)
            ≡ set_bullets k (bullets_of k s ++ new_bullet chars k s c ∷ []) s)
  unfolding apply next_id
  add-reads file s c k id w p o j q =
      let e : apply chars file c
          ≡ add_unless chars (with_text (strip_incoming_tag chars c.text) (bullets_of k s)) k s file
              c =
        ap (λ t. apply_op chars c.op t file c) (parse-IsWritten chars table file s w)
        ∙ ap (λ t. apply_op chars t s file c) o
        ∙ ap (λ t. apply_add chars t s file c) j in
      let h =
        added k (with_text (strip_incoming_tag chars c.text) (bullets_of k s)) s file c id w p
          (ap (λ r. r.answer) (sym e) ∙ q) in
      (
        fresh_above k (greatest_number chars k (bullets_of k s)) (bullets_of k s) (omega arith),
        h.0,
        ap (λ r. parse chars (file_text r.file)) e ∙ h.1,
      )
