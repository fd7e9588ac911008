-- ===== src/Evolution/Examples.antt =====
-- The evolution with whole numbers for floats and a text as its only word.
use doll_os.Prelude.{ℕ, ◌≡◌, refl, true, false, none, some, List, [], ◌∷◌, eqb, map, arith}
use doll_os.Prelude.Floats.{whole}
use doll_os.Evolution.Texts.{Text, Language}
use doll_os.Evolution.Slot.{PendingSlot, keeper, awaiting_doll}
use doll_os.Evolution.Store.{
  World, missing, stored, evo_candidate, evo_adopt, evo_kill, evo_counter, external_edit,
  sanctioned_text, latest_adopt,
}
use doll_os.Evolution.Review.{passed, proposed, unchanged, killed}
use doll_os.Evolution.Revision.{Disk, adopting, adopted, self_revision}
use doll_os.Evolution.Moves.{
  Settings, Move, turn_began, reflected, kept, revised, edited, moves, tripwired, judged,
}
use doll_os.Evolution.Sanction.{WorldOk}
use doll_os.Evolution.Expiry.{reflected-expires}
use doll_os.Evolution.Outcomes.{self_revision-failed}
use doll_os.Evolution.Adoption.{AdoptsShown, self_revision-adopted}
use doll_os.Evolution.Reviewed.{moves-WorldOk}

abbrev plain : Language
plain = record {
  is_space = λ c. eqb c 32;
  punctuation = λ c. false;
  nfkc = λ t. t;
  words = λ t. t ∷ [];
}

abbrev settings : Settings ℕ
settings = record {
  limits = record {
    floor = 1;
    cap = 100;
    enforcement = record { banned_substrings = []; max_exclaim_run = some 2 };
  };
  max_surfacings = 1;
  min_age_days = 5;
  base_interval_days = 1;
  max_interval_days = 8;
  pack_texts = [];
}

abbrev calm : Text
calm = b'c' ∷ b'a' ∷ b'l' ∷ b'm' ∷ []

abbrev start : World whole
start = record {
  slot = missing;
  history = [];
  file = none;
  last_evolution_attempt_at = 0;
  evolution_interval_days = 4;
  evolution_hwm = 0;
  last_error_ts = none;
  latched = false;
  candidate_surfaced = false;
}

abbrev works : Disk
works = record { append_ok = true; write_ok = true; rewrite_ok = true; error_ok = true }

-- A keeper's candidate is shown to Doll, who adopts it.
abbrev story : List (Move ℕ)
story =
    kept true (proposed calm none) unchanged passed 7 100
    ∷ turn_began
    ∷ reflected true 101
    ∷ revised works adopting [] 102
    ∷ []

story-history :
    (moves whole plain settings story start).history ≡ evo_adopt calm none ∷ evo_candidate calm ∷ []
unfolding moves doll_os.Evolution.Store.sanctioned_text
story-history = refl

story-file : (moves whole plain settings story start).file ≡ some calm
unfolding moves doll_os.Evolution.Store.sanctioned_text
story-file = refl

story-interval : (moves whole plain settings story start).evolution_interval_days ≡ 1
unfolding moves doll_os.Evolution.Store.sanctioned_text
story-interval = refl

-- The file is edited from outside; the skeptic passes the edit, Doll rewrites it, and the skeptic's
-- objection to the rewrite brings the edit back.
abbrev bold : Text
bold = b'b' ∷ b'o' ∷ b'l' ∷ b'd' ∷ []

abbrev outside : List (Move ℕ)
outside =
    edited (some calm)
    ∷ tripwired true 100
    ∷ judged true passed 101
    ∷ turn_began
    ∷ reflected true 102
    ∷ revised works adopting bold 103
    ∷ judged true (killed []) 104
    ∷ []

outside-history :
    (moves whole plain settings outside start).history
    ≡ evo_kill bold ∷ evo_counter bold 1 ∷ external_edit (some calm) ∷ []
unfolding moves doll_os.Evolution.Store.sanctioned_text
    doll_os.Evolution.Store.latest_external_edit_text
outside-history = refl

-- The texts that are vouched for.
abbrev Calm : Text → Type 0
Calm t = t ≡ calm

start-WorldOk : WorldOk whole Calm start
unfolding sanctioned_text latest_adopt
start-WorldOk = record { slot = tt; adopted = λ t e. absurd (ground (arith, e)) }

moves-WorldOk_example : WorldOk whole Calm (moves whole plain settings story start)
moves-WorldOk_example =
    moves-WorldOk whole plain settings Calm story start (((λ e. refl), tt), (tt, (tt, (tt, tt))))
      start-WorldOk

abbrev candidate : PendingSlot whole
candidate = record {
  kind = keeper;
  status = awaiting_doll;
  candidate = calm;
  created_ts = 100;
  rationale = none;
  fallback = none;
  counter_round = 0;
  surfaced_count = 0;
  verdict_errors = 0;
  hwm_before = some 3;
  notice = none;
  last_error_ts = none;
}

abbrev pending : World whole
pending = record start { slot = stored candidate; candidate_surfaced = true }

reflected-expires_example :
    (moves whole plain settings (map (reflected true) (105 ∷ 106 ∷ [])) pending).slot ≡ missing
reflected-expires_example =
    reflected-expires whole plain settings (105 ∷ 106 ∷ []) candidate pending refl refl
      (refl, (refl, tt)) (omega arith) (omega arith)

self_revision-failed_example :
    (self_revision whole plain settings.limits
      (record works { append_ok = false })
      1
      8
      105
      adopting
      []
      pending).1
    ≡ pending
self_revision-failed_example =
    self_revision-failed whole plain settings.limits 1 8 105 (record works { append_ok = false })
      adopting [] candidate pending refl refl

pending-adopted :
    (self_revision whole plain settings.limits works 1 8 105 adopting [] pending).0 ≡ adopted
unfolding moves self_revision doll_os.Evolution.Store.sanctioned_text
pending-adopted = refl

self_revision-adopted_example :
    AdoptsShown whole plain settings.limits 1 8 105 adopting pending
      (self_revision whole plain settings.limits works 1 8 105 adopting [] pending)
self_revision-adopted_example =
    self_revision-adopted whole plain settings.limits 1 8 105 works adopting [] pending
      pending-adopted
