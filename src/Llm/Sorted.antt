-- ===== src/Llm/Sorted.antt =====
-- The calls of a reply in the order of their indices.
use doll_os.Prelude.{
  ℕ, ◌<◌, ◌≡◌, refl, ap, ◌∙◌, false, none, some, List, [], ◌∷◌, arith, ltb, ltb→lt, eqb, eqb_iff,
  if◌then◌else◌, All, Bool-cases, inl, inr,
}
use doll_os.Harness.ToolCalls.{ToolCall}
use doll_os.Llm.{Fragment, Tools}
use doll_os.Llm.Feed.{add_fragment, add_fragments, insert_call, sorted_calls}
use doll_os.Llm.Pieces.{call_at, call_at-add_fragment}

-- No index stands in the table twice.
abbrev pub Distinct : Tools → Type 0
Distinct [] = Unit
Distinct ((i, c) ∷ tools) = (call_at i tools ≡ none) × Distinct tools

-- The indices ascend.
abbrev pub Ascending : Tools → Type 0
Ascending [] = Unit
Ascending ((i, c) ∷ tools) = All (λ (e : ℕ × ToolCall). i < e.0) tools × Ascending tools

add_fragment-Distinct :
    (tools : Tools) (f : Fragment) → Distinct tools → Distinct (add_fragment tools f)
unfolding add_fragment call_at
add_fragment-Distinct [] f h = (refl, tt)
add_fragment-Distinct ((i, c) ∷ tools) f h = elim (Bool-cases (eqb i f.index)) [
  | inl y ↦ rw y h
  | inr n ↦ rw n (absent n, add_fragment-Distinct tools f h.1)
]
  where
    absent : eqb i f.index ≡ false → call_at i (add_fragment tools f) ≡ none
    absent n =
        call_at-add_fragment i tools f
        ∙ ground (arith, n, h.0, eqb_iff i f.index, eqb_iff f.index i)

pub add_fragments-Distinct :
    (fs : List Fragment) (tools : Tools) → Distinct tools → Distinct (add_fragments tools fs)
unfolding add_fragments
add_fragments-Distinct [] tools h = h
add_fragments-Distinct (f ∷ fs) tools h =
    add_fragments-Distinct fs (add_fragment tools f) (add_fragment-Distinct tools f h)

call_at-insert_call :
    (i j : ℕ) (c : ToolCall) (tools : Tools)
    → call_at j tools ≡ none
    → call_at i (insert_call (j, c) tools) ≡ (if eqb j i then some c else call_at i tools)
unfolding call_at insert_call
call_at-insert_call i j c [] h = refl
call_at-insert_call i j c ((k, d) ∷ tools) h =
    ground
      (arith, eqb_iff j i, eqb_iff k i, eqb_iff k j, ltb→lt j k, call_at-insert_call i j c tools)

pub call_at-sorted_calls :
    (i : ℕ) (tools : Tools) → Distinct tools → call_at i (sorted_calls tools) ≡ call_at i tools
unfolding sorted_calls call_at
call_at-sorted_calls i [] h = refl
call_at-sorted_calls i ((j, c) ∷ tools) h =
    call_at-insert_call i j c (sorted_calls tools) (call_at-sorted_calls j tools h.1 ∙ h.0)
    ∙ ap (λ o. if eqb j i then some c else o) (call_at-sorted_calls i tools h.1)

insert_call-above :
    (k j : ℕ) (c : ToolCall) (tools : Tools)
    → k < j
    → All (λ (e : ℕ × ToolCall). k < e.0) tools
    → All (λ (e : ℕ × ToolCall). k < e.0) (insert_call (j, c) tools)
unfolding insert_call
insert_call-above k j c [] l h = (l, tt)
insert_call-above k j c ((i, d) ∷ tools) l h = elim (Bool-cases (ltb j i)) [
  | inl y ↦ rw y (l, h)
  | inr n ↦ rw n (h.0, insert_call-above k j c tools l h.1)
]

above-below :
    (k j : ℕ) (tools : Tools)
    → k < j
    → All (λ (e : ℕ × ToolCall). j < e.0) tools
    → All (λ (e : ℕ × ToolCall). k < e.0) tools
above-below k j [] l h = tt
above-below k j ((i, d) ∷ tools) l h = (omega (arith, h.0), above-below k j tools l h.1)

insert_call-Ascending :
    (j : ℕ) (c : ToolCall) (tools : Tools)
    → call_at j tools ≡ none
    → Ascending tools
    → Ascending (insert_call (j, c) tools)
unfolding insert_call call_at
insert_call-Ascending j c [] a h = (tt, tt)
insert_call-Ascending j c ((i, d) ∷ tools) a h = elim (Bool-cases (ltb j i)) [
  | inl y ↦ rw y ((ltb→lt j i y, above-below j i tools (ltb→lt j i y) h.0), h)
  | inr n ↦ rw n (
    insert_call-above i j c tools (ground (arith, n, a, eqb_iff i j)) h.0,
    insert_call-Ascending j c tools (ground (arith, a)) h.1,
  )
]

pub sorted_calls-Ascending : (tools : Tools) → Distinct tools → Ascending (sorted_calls tools)
unfolding sorted_calls
sorted_calls-Ascending [] h = tt
sorted_calls-Ascending ((j, c) ∷ tools) h =
    insert_call-Ascending j c (sorted_calls tools) (call_at-sorted_calls j tools h.1 ∙ h.0)
      (sorted_calls-Ascending tools h.1)
