-- ===== src/Llm/Pieces.antt =====
-- What becomes of the pieces of a tool call, however the server cuts and mixes them.
use mathlib.Core.List.{append_assoc, append-nil}
use doll_os.Prelude.{
  ℕ, String, ◌≡◌, refl, ◌∙◌, Option, none, some, List, [], ◌∷◌, ◌++◌, arith, eqb, eqb_iff, ◌==◌,
  eq_iff, if◌then◌else◌, keep, map, Bool-cases, inl, inr,
}
use doll_os.Harness.ToolCalls.{ToolCall}
use doll_os.Llm.{Fragment, Tools}
use doll_os.Llm.Feed.{extend, add_fragment, add_fragments, no_call, or_last, concat}

-- `self.tools.get(i)`
unfoldable pub call_at : ℕ → Tools → Option ToolCall
call_at i [] = none
call_at i ((j, c) ∷ tools) = if eqb j i then some c else call_at i tools

unfoldable pub first_given : List String → String
first_given [] = ""
first_given (s ∷ ss) = if s == "" then first_given ss else s

-- The pieces with an index.
abbrev pub pieces_at : ℕ → List Fragment → List Fragment
pieces_at i fs = keep (λ (f : Fragment). eqb f.index i) fs

-- The call that pieces make: the first id and the first name that one of them has, and all arguments.
unfoldable pub joined : List Fragment → Option ToolCall
unfolding first_given concat
joined [] = none
joined (f ∷ fs) = some (record {
  id = first_given (map (λ (g : Fragment). g.id) (f ∷ fs));
  name = first_given (map (λ (g : Fragment). g.name) (f ∷ fs));
  arguments = concat (map (λ (g : Fragment). g.arguments) (f ∷ fs));
})

-- The same by one piece after the other.
extend_all : List Fragment → Option ToolCall → Option ToolCall
extend_all [] o = o
extend_all (f ∷ fs) o = extend_all fs (some (extend f (or_last o no_call)))

pub call_at-add_fragment :
    (i : ℕ) (tools : Tools) (f : Fragment)
    → call_at i (add_fragment tools f) ≡ (
        if eqb f.index i
        then some (extend f (or_last (call_at i tools) no_call))
        else call_at i tools)
unfolding call_at add_fragment
call_at-add_fragment i [] f = refl
call_at-add_fragment i ((j, c) ∷ tools) f =
    ground
      (arith, eqb_iff j i, eqb_iff f.index i, eqb_iff j f.index, call_at-add_fragment i tools f)

call_at-extend_all :
    (i : ℕ) (fs : List Fragment) (tools : Tools)
    → call_at i (add_fragments tools fs) ≡ extend_all (pieces_at i fs) (call_at i tools)
unfolding add_fragments extend_all
call_at-extend_all i [] tools = refl
call_at-extend_all i (f ∷ fs) tools =
    call_at-extend_all i fs (add_fragment tools f) ∙ elim (Bool-cases (eqb f.index i)) [
      | inl y ↦ rw (call_at-add_fragment i tools f, y) refl
      | inr n ↦ rw (call_at-add_fragment i tools f, n) refl
    ]

-- A call that has some pieces, and those that follow.
abbrev with_call : ToolCall → List Fragment → ToolCall
with_call c fs = record {
  id = if c.id == "" then first_given (map (λ (g : Fragment). g.id) fs) else c.id;
  name = if c.name == "" then first_given (map (λ (g : Fragment). g.name) fs) else c.name;
  arguments = c.arguments ++ concat (map (λ (g : Fragment). g.arguments) fs);
}

given_twice :
    (s t u : String)
    → (if (if s == "" then t else s) == "" then u else (if s == "" then t else s))
      ≡ (if s == "" then (if t == "" then u else t) else s)
given_twice s t u = ground (arith, eq_iff s "", eq_iff t "")

empty_or_self : (s : String) → (if s == "" then "" else s) ≡ s
empty_or_self s = ground (arith, eq_iff s "")

extend_all-with_call :
    (fs : List Fragment) (c : ToolCall) → extend_all fs (some c) ≡ some (with_call c fs)
unfolding extend_all first_given concat extend
extend_all-with_call [] c = simp (empty_or_self, append-nil)
extend_all-with_call (f ∷ fs) c = simp (extend_all-with_call fs, given_twice, append_assoc)

extend_all-joined : (fs : List Fragment) → extend_all fs none ≡ joined fs
unfolding extend_all joined extend
extend_all-joined [] = refl
extend_all-joined (f ∷ fs) = extend_all-with_call fs (extend f no_call)

-- The call at an index is what the pieces with that index make.
pub call_at-add_fragments :
    (i : ℕ) (fs : List Fragment) → call_at i (add_fragments [] fs) ≡ joined (pieces_at i fs)
unfolding call_at
call_at-add_fragments i fs = call_at-extend_all i fs [] ∙ extend_all-joined (pieces_at i fs)

pub add_fragments-append :
    (tools : Tools) (fs gs : List Fragment)
    → add_fragments tools (fs ++ gs) ≡ add_fragments (add_fragments tools fs) gs
unfolding add_fragments
add_fragments-append tools [] gs = refl
add_fragments-append tools (f ∷ fs) gs = add_fragments-append (add_fragment tools f) fs gs
