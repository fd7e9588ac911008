-- ===== src/Wal/Lines.antt =====
-- `str.splitlines`, and the text of lines that each end in a newline.
use mathlib.Core.List.{append_assoc, append-nil}
use doll_os.Prelude.{
  ℕ, ◌≡◌, refl, sym, ap, ◌∙◌, Bool, false, ◌&&◌, ◌||◌, List, [], ◌∷◌, ◌++◌, arith, leb, eqb,
  if◌then◌else◌, any, All,
}

-- The characters at which `splitlines` breaks a text.
abbrev pub line_break : ℕ → Bool
line_break c =
    leb 10 c && leb c 13 || leb 0x1c c && leb c 0x1e || eqb c 0x85 || eqb c 0x2028 || eqb c 0x2029

-- `after_cr`: a carriage return stands right before, so a newline here is the same break.
unfoldable pub split_from : Bool → List ℕ → List ℕ → List (List ℕ)
split_from after_cr [] [] = []
split_from after_cr (a ∷ line) [] = (a ∷ line) ∷ []
split_from after_cr line (c ∷ s) =
    if after_cr && eqb c 10
    then split_from false line s
    else if line_break c
    then line ∷ split_from (eqb c 13) [] s
    else split_from false (line ++ c ∷ []) s

unfoldable pub split_lines : List ℕ → List (List ℕ)
unfolding split_from
split_lines s = split_from false [] s

-- `"\n".join(lines) + "\n"`, or nothing where there is no line.
unfoldable pub join_lines : List (List ℕ) → List ℕ
join_lines [] = []
join_lines (l ∷ ls) = l ++ 10 ∷ join_lines ls

-- A text that is one line for `splitlines`.
abbrev pub OneLine : List ℕ → Type 0
OneLine s = any line_break s ≡ false

or-left : (a b : Bool) → (a || b) ≡ false → a ≡ false
or-left a b h = ground arith

or-right : (a b : Bool) → (a || b) ≡ false → b ≡ false
or-right a b h = ground arith

split_from-line :
    (seen l s : List ℕ)
    → OneLine l
    → split_from false seen (l ++ 10 ∷ s) ≡ (seen ++ l) ∷ split_from false [] s
unfolding split_from
split_from-line seen [] s h = rw (append-nil seen) refl
split_from-line seen (c ∷ l) s h = rw (or-left (line_break c) (any line_break l) h) (
    split_from-line (seen ++ c ∷ []) l s (or-right (line_break c) (any line_break l) h)
    ∙ ap (λ t. t ∷ split_from false [] s) (append_assoc seen (c ∷ []) l))

-- Splitting undoes joining, line by line.
pub split_lines-join : (ls : List (List ℕ)) → All OneLine ls → split_lines (join_lines ls) ≡ ls
unfolding split_lines join_lines
split_lines-join [] h = refl
split_lines-join (l ∷ ls) h =
    split_from-line [] l (join_lines ls) h.0 ∙ ap (λ t. l ∷ t) (split_lines-join ls h.1)

pub join_lines-append :
    (ls : List (List ℕ)) (l : List ℕ) → join_lines (ls ++ l ∷ []) ≡ join_lines ls ++ (l ++ 10 ∷ [])
unfolding join_lines
join_lines-append [] l = refl
join_lines-append (k ∷ ls) l =
    ap (λ t. k ++ 10 ∷ t) (join_lines-append ls l)
    ∙ sym (append_assoc k (10 ∷ join_lines ls) (l ++ 10 ∷ []))
