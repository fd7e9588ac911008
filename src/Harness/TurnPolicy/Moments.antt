-- ===== src/Harness/TurnPolicy/Moments.antt =====
-- Which batches run as which kind of turn.
use doll_os.Prelude.{
  String, ◌≡◌, ◌≢◌, ◌⊎◌, ◌↔◌, inl, inr, refl, true, false, List, [], ◌∷◌, ◌==◌, arith, eq_iff, any,
  all, Among, ap, Bool-cases,
}
use doll_os.Perception.{Perception}
use doll_os.Harness.TurnPolicy.{all_tools, policies, pure, moment_of, kind_of}

all-Among :
    (kind : String) (ps : List Perception) (p : Perception)
    → Among p ps
    → all (λ q. q.kind == kind) ps ≡ true
    → p.kind ≡ kind
all-Among kind [] p m h = absurd m
all-Among kind (q ∷ ps) p (inl e) h =
    ground (arith, eq_iff q.kind kind, ap (λ (r : Perception). r.kind) e)
all-Among kind (q ∷ ps) p (inr m) h = ground (arith, all-Among kind ps p m)

pure-Among :
    (kind : String) (ps : List Perception) (p : Perception)
    → Among p ps
    → p.kind ≢ kind
    → pure ps kind ≡ false
unfolding pure
pure-Among kind [] p m h = absurd m
pure-Among kind (q ∷ ps) p m h = elim (Bool-cases (all (λ r. r.kind == kind) (q ∷ ps))) [
  | inl e ↦ absurd (h (all-Among kind (q ∷ ps) p m e))
  | inr e ↦ e
]

-- Outside safe mode a batch with a perception that is no diary, agenda or pulse moment keeps the
-- whole registry and may speak, whatever moments ride along with it.
pub kind_of-live :
    (ps : List Perception) (p : Perception)
    → Among p ps
    → p.kind ≢ "DiaryMoment"
    → p.kind ≢ "AgendaMoment"
    → p.kind ≢ "PulseMoment"
    → ((policies (kind_of ps false)).kind_tools ≡ all_tools)
      × ((policies (kind_of ps false)).speaks ≡ true)
unfolding kind_of policies
kind_of-live ps p m d a u = ground (
  arith,
  pure-Among "DiaryMoment" ps p m d,
  pure-Among "AgendaMoment" ps p m a,
  pure-Among "PulseMoment" ps p m u,
)

pure-all :
    (ps : List Perception) (kind : String)
    → pure ps kind ≡ true
    → (ps ≢ []) × (all (λ p. p.kind == kind) ps ≡ true)
unfolding pure
pure-all [] kind h = cc
pure-all (p ∷ ps) kind h = (λ e. cc, h)

no-reflection :
    (kind : String) (ps : List Perception)
    → kind == "ReflectionMoment" ≡ false
    → all (λ p. p.kind == kind) ps ≡ true
    → any (λ p. p.kind == "ReflectionMoment") ps ≡ false
no-reflection kind [] k h = refl
no-reflection kind (p ∷ ps) k h = ground (arith, eq_iff p.kind kind, no-reflection kind ps k)

-- A batch that holds only moments of one kind, and at least one.
abbrev pub Only : String → List Perception → Type 0
Only kind ps = (ps ≢ []) × (all (λ p. p.kind == kind) ps ≡ true)

Only-pure : (ps : List Perception) (kind : String) → Only kind ps → pure ps kind ≡ true
unfolding pure
Only-pure [] kind (ne, h) = absurd (ne refl)
Only-pure (p ∷ ps) kind (ne, h) = h

-- Doll's words are held back exactly on a batch of diary moments alone or of agenda moments alone.
pub moment_of-silent :
    (ps : List Perception)
    → ((policies (moment_of ps)).speaks ≡ false) ↔ (Only "DiaryMoment" ps ⊎ Only "AgendaMoment" ps)
unfolding moment_of policies
moment_of-silent ps = (silent ps, loud ps)
  where
    silent :
        (qs : List Perception)
        → (policies (moment_of qs)).speaks ≡ false
        → Only "DiaryMoment" qs ⊎ Only "AgendaMoment" qs
    silent qs h = ground (arith, pure-all qs "DiaryMoment", pure-all qs "AgendaMoment")

    loud :
        (qs : List Perception)
        → Only "DiaryMoment" qs ⊎ Only "AgendaMoment" qs
        → (policies (moment_of qs)).speaks ≡ false
    loud qs (inl o) =
        rw (no-reflection "DiaryMoment" qs refl o.1, Only-pure qs "DiaryMoment" o) refl
    loud qs (inr o) =
        ground (arith, no-reflection "AgendaMoment" qs refl o.1, Only-pure qs "AgendaMoment" o)
