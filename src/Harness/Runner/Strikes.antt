-- ===== src/Harness/Runner/Strikes.antt =====
-- The failure counters against the results that they count.
use doll_os.Prelude.{
  ◌==◌, ℕ, ◌+◌, String, ◌≡◌, Bool, true, not, ◌&&◌, List, [], ◌∷◌, ◌++◌, arith, if◌then◌else◌, ◌∙◌,
  ◌≢◌, Bool-cases, refl, ap, All, none, ◌≤◌, sym, inl, leb, ◌↔◌, inr, leb→le, Option, member, subst,
  some, Option-cases,
}
use doll_os.Harness.TurnPolicy.{safe_mode_rule}
use doll_os.Harness.Executor.{ToolResult}
use doll_os.Harness.Runner.{
  Failures, strike, succeed, refuse, add_all, add, first_at, safe_mode_reason, is_last, fresh,
  get_count, stuck, consecutive,
}
use doll_os.Prelude.Dict.{Dict, put, get}

-- The results of passes, one pass after the other.
unfoldable pub add_passes : List (List ToolResult) → Failures → Failures
unfolding add
add_passes [] f = f
add_passes (p ∷ ps) f = add_passes ps (add p f)

abbrev pub good : ToolResult → Bool
good r = not r.refused && r.success

abbrev pub bad : ToolResult → Bool
bad r = not r.refused && not r.success

abbrev pub no_success : List ToolResult → Bool
no_success [] = true
no_success (r ∷ rs) = not (good r) && no_success rs

abbrev pub fails : List ToolResult → ℕ
fails [] = 0
fails (r ∷ rs) = (if bad r then 1 else 0) + fails rs

-- The failures behind the last success, refusals left out.
abbrev pub trailing : List ToolResult → ℕ
trailing [] = 0
trailing (r ∷ rs) = if no_success rs then fails (r ∷ rs) else trailing rs

abbrev pub concat : List (List ToolResult) → List ToolResult
concat [] = []
concat (p ∷ ps) = p ++ concat ps

-- The streak that `n` failures become over the results.
abbrev since : ℕ → List ToolResult → ℕ
since n rs = if no_success rs then n + fails rs else trailing rs

strike-streak :
    (name : String) (f : Failures)
    → f.rule ≡ safe_mode_rule
    → ((strike name f).streak ≡ f.streak + 1) × ((strike name f).rule ≡ safe_mode_rule)
unfolding strike
strike-streak name f e = rw (e, strike) (ground arith)

add_all-streak :
    (seen : List String) (rs : List ToolResult) (f : Failures)
    → f.rule ≡ safe_mode_rule
    → ((add_all seen rs f).streak ≡ since f.streak rs) × ((add_all seen rs f).rule ≡ safe_mode_rule)
unfolding add_all succeed refuse
add_all-streak seen [] f e = (omega arith, e)
add_all-streak seen (r ∷ rs) f e = ground (
  arith,
  add_all-streak seen rs f e,
  add_all-streak (r.tool_name ∷ seen) rs (refuse r.tool_name f) e,
  add_all-streak seen rs (succeed f) e,
  strike-streak r.tool_name f e,
  add_all-streak seen rs (strike r.tool_name f),
)

no_success-append : (p q : List ToolResult) → no_success (p ++ q) ≡ no_success p && no_success q
no_success-append [] q = refl
no_success-append (r ∷ p) q = ground (arith, no_success-append p q)

fails-append : (p q : List ToolResult) → fails (p ++ q) ≡ fails p + fails q
fails-append [] q = omega arith
fails-append (r ∷ p) q = ground (arith, fails-append p q)

trailing-since : (n : ℕ) (p : List ToolResult) → no_success p ≡ true → since n p ≡ n + trailing p
trailing-since n [] h = refl
trailing-since n (r ∷ p) h = ground arith

since-append : (n : ℕ) (p q : List ToolResult) → since n (p ++ q) ≡ since (since n p) q
since-append n [] q = ground arith
since-append n (r ∷ p) q =
    ground (arith, since-append n p q, no_success-append p q, fails-append p q)

add_passes-streak :
    (ps : List (List ToolResult)) (f : Failures)
    → f.rule ≡ safe_mode_rule
    → (add_passes ps f).streak ≡ since f.streak (concat ps)
unfolding add_passes add
add_passes-streak [] f e = omega arith
add_passes-streak (p ∷ ps) f e =
    let (s, e') = add_all-streak [] p f e in
    add_passes-streak ps (add_all [] p f) e'
    ∙ ap (λ n. since n (concat ps)) s
    ∙ sym (since-append f.streak p (concat ps))

-- No tool has more strikes than the streak is long, and a tool failed last only in a streak.
abbrev Within : ℕ → Dict ℕ → Type 0
Within n = All (λ e. e.1 ≤ n)

record IsBounded (f : Failures) : Type 0 where
  strikes : Within f.streak f.per_tool
  started : f.last_failed ≢ none → 1 ≤ f.streak

Within-mono : (n m : ℕ) (d : Dict ℕ) → Within n d → n ≤ m → Within m d
Within-mono n m [] h a = tt
Within-mono n m (e ∷ d) h a = (omega arith, Within-mono n m d h.1 a)

Within-put :
    (n m v : ℕ) (d : Dict ℕ) (k : String) → Within n d → n ≤ m → v ≤ m → Within m (put d k v)
unfolding put
Within-put n m v [] k h a b = (b, tt)
Within-put n m v ((j, c) ∷ d) k h a b = elim (Bool-cases (k == j)) [
  | inl same ↦ rw same (b, Within-mono n m d h.1 a)
  | inr other ↦ rw other (omega arith, Within-put n m v d k h.1 a b)
]

get_count-le :
    (n default : ℕ) (d : Dict ℕ) (k : String) → Within n d → default ≤ n → get_count d k default ≤ n
unfolding get
get_count-le n default [] k h a = a
get_count-le n default ((j, c) ∷ d) k h a = ground (arith, get_count-le n default d k)

is_last-some : (o : Option String) (name : String) → is_last o name ≡ true → o ≢ none
is_last-some none name h = λ e. cc
is_last-some (some n) name h = λ e. cc

strike-IsBounded :
    (name : String) (f : Failures)
    → f.rule ≡ safe_mode_rule
    → IsBounded f
    → IsBounded (strike name f)
unfolding strike
strike-IsBounded name f e h = elim (Bool-cases (is_last f.last_failed name)) [
  | inl again ↦
      rw (e, strike, again)
        (record {
          strikes =
              Within-put f.streak (f.streak + 1) (get_count f.per_tool name 1 + 1) f.per_tool name
                h.strikes (omega arith)
                (omega (
                  arith,
                  get_count-le f.streak 1 f.per_tool name h.strikes
                      (h.started (is_last-some f.last_failed name again)),
                ));
          started = λ n. omega arith;
        })
  | inr other ↦
      rw (e, strike, other) (record { strikes = (omega arith, tt); started = λ n. omega arith })
]

add_all-IsBounded :
    (seen : List String) (rs : List ToolResult) (f : Failures)
    → f.rule ≡ safe_mode_rule
    → IsBounded f
    → IsBounded (add_all seen rs f)
unfolding add_all refuse succeed
add_all-IsBounded seen [] f e h = h
add_all-IsBounded seen (r ∷ rs) f e h = elim (Bool-cases r.refused) [
  | inl no_run ↦ elim (Bool-cases (member r.tool_name seen)) [
    | inl again ↦ rw (no_run, again) (add_all-IsBounded seen rs f e h)
    | inr first ↦
        rw (no_run, first)
          (add_all-IsBounded (r.tool_name ∷ seen) rs (refuse r.tool_name f) e
            (record { strikes = h.strikes; started = h.started }))
  ]
  | inr ran ↦ elim (Bool-cases r.success) [
    | inl fine ↦
        rw (ran, fine)
          (add_all-IsBounded seen rs (succeed f) e
            (record { strikes = tt; started = λ n. absurd (n refl) }))
    | inr wrong ↦
        rw (ran, wrong)
          (add_all-IsBounded seen rs (strike r.tool_name f) (strike-streak r.tool_name f e).1
            (strike-IsBounded r.tool_name f e h))
  ]
]

add_passes-IsBounded :
    (ps : List (List ToolResult)) (f : Failures)
    → f.rule ≡ safe_mode_rule
    → IsBounded f
    → IsBounded (add_passes ps f)
unfolding add_passes add
add_passes-IsBounded [] f e h = h
add_passes-IsBounded (p ∷ ps) f e h =
    add_passes-IsBounded ps (add_all [] p f) (add_all-streak [] p f e).1
      (add_all-IsBounded [] p f e h)

first_at-some : (limit n : ℕ) (d : Dict ℕ) → Within n d → first_at limit d ≢ none → limit ≤ n
unfolding first_at
first_at-some limit n [] h s = absurd (s refl)
first_at-some limit n ((k, c) ∷ d) h s = elim (Bool-cases (leb limit c)) [
  | inl t ↦ omega (arith, leb→le limit c t)
  | inr t ↦ first_at-some limit n d h.1 (λ z. s (rw t z))
]

reason-streak : (f : Failures) → IsBounded f → (safe_mode_reason f ≢ none) ↔ (3 ≤ f.streak)
unfolding safe_mode_reason stuck
reason-streak f h = elim (Option-cases (first_at 3 f.per_tool)) [
  | inl p ↦ rw (p, safe_mode_reason) (λ n. enough n, λ l e. ground arith)
  | inr (n, p) ↦
      let l : 3 ≤ f.streak = first_at-some 3 f.streak f.per_tool h.strikes (λ e. cc) in
      rw (p, safe_mode_reason) (λ _. l, λ _ e. cc)
]
  where
    enough : (if leb 3 f.streak then some (consecutive f.streak) else none) ≢ none → 3 ≤ f.streak
    enough n = elim (Bool-cases (leb 3 f.streak)) [
      | inl t ↦ leb→le 3 f.streak t
      | inr t ↦ absurd (n (rw t refl))
    ]

fails-trailing : (rs : List ToolResult) → since 0 rs ≡ trailing rs
fails-trailing [] = refl
fails-trailing (r ∷ rs) = ground (arith, fails-trailing rs)

-- In a turn under the safe-mode rule, after any passes from a fresh start: there is a reason for
-- safe mode exactly if at least three calls have failed since the last success, refused calls
-- left out.
pub safe_mode_reason-trailing :
    (ps : List (List ToolResult))
    → (safe_mode_reason (add_passes ps (fresh safe_mode_rule)) ≢ none) ↔ (3 ≤ trailing (concat ps))
safe_mode_reason-trailing ps =
    subst (λ n. (safe_mode_reason (add_passes ps (fresh safe_mode_rule)) ≢ none) ↔ (3 ≤ n))
      (add_passes-streak ps (fresh safe_mode_rule) refl ∙ fails-trailing (concat ps))
      (reason-streak (add_passes ps (fresh safe_mode_rule)) (
        add_passes-IsBounded ps (fresh safe_mode_rule) refl
          (record { strikes = tt; started = λ n. absurd (n refl) })))
