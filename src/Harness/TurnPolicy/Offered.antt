-- ===== src/Harness/TurnPolicy/Offered.antt =====
-- Every tool that a turn is bound to is on the fixed list that the model is shown.
use mathlib.Core.Option
use doll_os.Prelude.{
  String, ◌≡◌, inl, inr, Among, Option-cases, refl, subst, Bool, true, ◌&&◌, not, some, List, [],
  ◌∷◌, ◌++◌, arith, eq_iff, if◌then◌else◌, keep, member, member-append, member-keep,
}
use doll_os.Prelude.Dict.{Dict, get}
use doll_os.Harness.Permissions.{Principal, owner, allows, tool_matrix, names_allowing, tools_for}
use doll_os.Harness.Permissions.Trust.{rank-injective}
use doll_os.Harness.TurnPolicy.{
  TurnKind, conversation, Extra, Switches, policies, row, extra_names, kind_allows, bound_tools,
  same_tier, meets, builtin_names, tier_extras, all_extras, kinds, mcp_names, offered_tools,
}

abbrev keys : Dict (List Principal) → List String
keys [] = []
keys ((k, r) ∷ m) = k ∷ keys m

abbrev distinct : Dict (List Principal) → Bool
distinct [] = true
distinct ((k, r) ∷ m) = not (member k (keys m)) && distinct m

names_allowing-keys :
    (m : Dict (List Principal)) (p : Principal) (n : String)
    → member n (names_allowing m p) ≡ true
    → member n (keys m) ≡ true
names_allowing-keys [] p n h = h
names_allowing-keys ((k, r) ∷ m) p n h = ground (arith, names_allowing-keys m p n)

names_allowing-row :
    (m : Dict (List Principal)) (p : Principal) (n : String)
    → distinct m ≡ true
    → member n (names_allowing m p) ≡ true
    → allows (Option.get_or (get m n) []) p ≡ true
unfolding get
names_allowing-row [] p n d h = cc
names_allowing-row ((k, r) ∷ m) p n d h = ground (
  arith,
  eq_iff n k,
  names_allowing-row m p n,
  names_allowing-keys m p k,
  names_allowing-keys m p n,
)

-- A principal's tools are the names whose row has it.
pub tools_for-row :
    (p : Principal) (n : String) → member n (tools_for p) ≡ true → allows (row n) p ≡ true
unfolding tools_for row
tools_for-row p n h = names_allowing-row tool_matrix p n refl h

mem-same_tier : (p : Principal) → allows (same_tier p) p ≡ true
unfolding same_tier
mem-same_tier owner = refl
mem-same_tier _ = refl

meets_of_allows :
    (tier row : List Principal) (p : Principal)
    → allows tier p ≡ true
    → allows row p ≡ true
    → meets tier row ≡ true
meets_of_allows [] row p t h = cc
meets_of_allows (q ∷ tier) row p t h =
    ground (arith, rank-injective q p, meets_of_allows tier row p)

builtin_names-member :
    (tier : List Principal) (registry b : List String) (n : String)
    → builtin_names tier registry ≡ some b
    → member n registry ≡ true
    → meets tier (row n) ≡ true
    → member n b ≡ true
unfolding builtin_names row
builtin_names-member tier [] b n e h m = cc
builtin_names-member tier (r ∷ registry) b n e h m =
    elim (Option-cases (builtin_names tier registry)) [
      | inl p ↦ ground arith
      | inr (c, p) ↦ ground (arith, eq_iff n r, builtin_names-member tier registry c n p)
    ]

tier_extras-member :
    (tier : List Principal) (p : Principal) (s : Switches) (es : List Extra) (n : String)
    → allows tier p ≡ true
    → member n (extra_names p s es) ≡ true
    → member n (tier_extras tier s es) ≡ true
tier_extras-member [] p s es n t h = cc
tier_extras-member (q ∷ tier) p s es n t h = ground (
  arith,
  member-append n (extra_names q s es) (tier_extras tier s es),
  rank-injective q p,
  tier_extras-member tier p s es n,
)

all_extras-member :
    (ks : List TurnKind) (k : TurnKind) (tier : List Principal) (s : Switches) (n : String)
    → Among k ks
    → member n (tier_extras tier s (policies k).extra_tools) ≡ true
    → member n (all_extras ks tier s) ≡ true
all_extras-member [] k tier s n i h = absurd i
all_extras-member (j ∷ ks) k tier s n (inl e) h =
    rw
      (member-append n (tier_extras tier s (policies j).extra_tools) (all_extras ks tier s), ← e, h)
      refl
all_extras-member (j ∷ ks) k tier s n (inr i) h = ground (
  arith,
  member-append n (tier_extras tier s (policies j).extra_tools) (all_extras ks tier s),
  all_extras-member ks k tier s n i h,
)

Among-kinds : (k : TurnKind) → Among k kinds
Among-kinds conversation = ground arith
Among-kinds _ = ground arith

mcp_names-member :
    (tier : List Principal) (p : Principal) (mcp : Dict (List Principal)) (n : String)
    → allows tier p ≡ true
    → member n (names_allowing mcp p) ≡ true
    → member n (mcp_names tier mcp) ≡ true
unfolding mcp_names
mcp_names-member tier p [] n t h = h
mcp_names-member tier p ((k, r) ∷ mcp) n t h =
    ground (arith, meets_of_allows tier r p, mcp_names-member tier p mcp n)

module _ (k : TurnKind) (p : Principal) (s : Switches) (n : String) where
  kind_part-member :
      (registry b : List String)
      → builtin_names (same_tier p) registry ≡ some b
      → member n
          (keep (λ m. kind_allows (policies k).kind_tools m && member m (tools_for p)) registry)
        ≡ true
      → member n b ≡ true
  kind_part-member registry b e h = ground (
    arith,
    member-keep n (λ m. kind_allows (policies k).kind_tools m && member m (tools_for p)) registry,
    tools_for-row p n,
    meets_of_allows (same_tier p) (row n) p (mem-same_tier p),
    builtin_names-member (same_tier p) registry b n e,
  )

  extras_part-member :
      member n (extra_names p s (policies k).extra_tools) ≡ true
      → member n (all_extras kinds (same_tier p) s) ≡ true
  extras_part-member h =
      all_extras-member kinds k (same_tier p) s n (Among-kinds k)
        (tier_extras-member (same_tier p) p s (policies k).extra_tools n (mem-same_tier p) h)

  remote_part-member :
      (mcp : Dict (List Principal))
      → member n (if (policies k).mcp_tools then names_allowing mcp p else []) ≡ true
      → member n (mcp_names (same_tier p) mcp) ≡ true
  remote_part-member mcp h =
      ground (arith, mcp_names-member (same_tier p) p mcp n (mem-same_tier p))

-- Membership in three joined lists, part by part.
member-join3 :
    (n : String) (a b c a' b' c' : List String)
    → (member n a ≡ true → member n a' ≡ true)
    → (member n b ≡ true → member n b' ≡ true)
    → (member n c ≡ true → member n c' ≡ true)
    → member n (a ++ b ++ c) ≡ true
    → member n (a' ++ b' ++ c') ≡ true
member-join3 n a b c a' b' c' f g h m = ground (
  arith,
  member-append n (a ++ b) c,
  member-append n a b,
  member-append n (a' ++ b') c',
  member-append n a' b',
)

-- Whatever the turn's kind, principal, switches and servers: a tool that the turn is bound to is
-- on the fixed list that the model is shown, whenever that list is built.
pub bound-sub-offered :
    (k : TurnKind) (p : Principal) (registry : List String) (s : Switches)
    (mcp : Dict (List Principal)) (offered : List String) (n : String)
    → offered_tools p registry s mcp ≡ some offered
    → member n (bound_tools k p registry s mcp) ≡ true
    → member n offered ≡ true
unfolding offered_tools bound_tools
bound-sub-offered k p registry s mcp offered n e h =
    elim (Option-cases (builtin_names (same_tier p) registry)) [
      | inl b ↦ ground arith
      | inr (b, q) ↦
          let o : b ++ all_extras kinds (same_tier p) s ++ mcp_names (same_tier p) mcp ≡ offered =
            ground arith in
          subst (λ l. member n l ≡ true) o
            (member-join3 n _ _ _ b (all_extras kinds (same_tier p) s) (mcp_names (same_tier p) mcp)
              (kind_part-member k p s n registry b q) (extras_part-member k p s n)
              (remote_part-member k p s n mcp) h)
    ]
