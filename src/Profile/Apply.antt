-- ===== src/Profile/Apply.antt =====
-- `apply` of src/dollos/mind/self_profile.py. The wording of what Doll is told is left out. The
-- history is what is logged; that a log fails changes nothing else.
use doll_os.Prelude.{
  ℕ, zero, suc, Bool, true, false, ◌&&◌, Option, none, some, List, [], ◌∷◌, ◌++◌, ltb, eqb,
  if◌then◌else◌, length,
}
use doll_os.Evolution.Texts.{same}
use doll_os.Profile.{
  Text, Chars, Section, Bullet, Sections, bullets_of, set_bullets, parse, serialize,
}
use doll_os.Profile.Edits.{Placed, find, next_id, strip_incoming_tag}

-- What Doll is told.
pub data PinAnswer : Type 0 where
  unknown_section unknown_op not_found : PinAnswer
  same_entry updated removed : Text → PinAnswer
  pinned : Section → Text → PinAnswer
  at_limit : ℕ → PinAnswer

pub data Op : Type 0 where
  add replace remove other : Op

pub data PinKind : Type 0 where
  pin_add pin_reconfirm pin_replace pin_remove : PinKind

pub record PinEvent : Type 0 where
  pub kind : PinKind
  pub section : Section
  pub id : Text
  pub text : Text
  pub old_text : Option Text

-- The call: its section is none if it is no section. `last_pin` is what the history says of the turn of
-- the last pin of this text, or none where it cannot be read.
pub record Call : Type 0 where
  pub section : Option Section
  pub op : Op
  pub target : Text
  pub text : Text
  pub max_chars : ℕ
  pub today : Text
  pub turn : ℕ
  pub last_pin : Section → Text → Option (Option ℕ)

-- The file is none where it does not exist.
pub record Applied : Type 0 where
  pub answer : PinAnswer
  pub file : Option Text
  pub logged : List PinEvent

abbrev pub told : PinAnswer → Option Text → Applied
told a file = record { answer = a; file = file; logged = [] }

abbrev pub file_text : Option Text → Text
file_text none = []
file_text (some t) = t

-- `existing`
abbrev pub with_text : Text → List Bullet → Option Bullet
with_text t [] = none
with_text t (b ∷ bs) = if same b.text t then some b else with_text t bs

-- `sections[key][i] = b` and `sections[key].pop(i)`
unfoldable pub set_at : ℕ → Bullet → List Bullet → List Bullet
set_at i b [] = []
set_at zero b (c ∷ bs) = b ∷ bs
set_at (suc i) b (c ∷ bs) = c ∷ set_at i b bs

unfoldable pub pop_at : ℕ → List Bullet → List Bullet
pop_at i [] = []
pop_at zero (c ∷ bs) = bs
pop_at (suc i) (c ∷ bs) = c ∷ pop_at i bs

-- The end of `apply`: `bounded` says that the limit counts.
unfoldable pub commit : Bool → ℕ → Option Text → Sections → PinAnswer → PinEvent → Applied
unfolding serialize
commit bounded most file s a e =
    let out = serialize s in
    if bounded && ltb most (length out)
    then told (at_limit (length out)) file
    else record { answer = a; file = some out; logged = e ∷ [] }

-- The text is pinned again in a later turn.
abbrev pub reconfirmed : ℕ → Option (Option ℕ) → PinEvent → List PinEvent
reconfirmed turn none e = []
reconfirmed turn (some none) e = e ∷ []
reconfirmed turn (some (some t)) e = if eqb t turn then [] else e ∷ []

module _ (chars : Chars) where
  abbrev pub new_bullet : Section → Sections → Call → Bullet
  new_bullet k s c = record {
    id = next_id chars k (bullets_of k s);
    date = c.today;
    text = strip_incoming_tag chars c.text;
  }

  abbrev pub add_unless : Option Bullet → Section → Sections → Option Text → Call → Applied
  add_unless (some b) k s file c = record {
    answer = same_entry b.id;
    file = file;
    logged = reconfirmed c.turn (c.last_pin k (strip_incoming_tag chars c.text)) (record {
      kind = pin_reconfirm;
      section = k;
      id = b.id;
      text = strip_incoming_tag chars c.text;
      old_text = none;
    });
  }
  add_unless none k s file c =
      let b = new_bullet k s c in
      commit true c.max_chars file (set_bullets k (bullets_of k s ++ b ∷ []) s) (pinned k b.id)
        (record { kind = pin_add; section = k; id = b.id; text = b.text; old_text = none })

  abbrev pub apply_add : Option Section → Sections → Option Text → Call → Applied
  apply_add none s file c = told unknown_section file
  apply_add (some k) s file c =
      add_unless (with_text (strip_incoming_tag chars c.text) (bullets_of k s)) k s file c

  abbrev pub revised : Bullet → Call → Bullet
  revised b c = record { id = b.id; date = c.today; text = strip_incoming_tag chars c.text }

  abbrev pub apply_replace : Option Placed → Sections → Option Text → Call → Applied
  apply_replace none s file c = told not_found file
  apply_replace (some x) s file c =
      let b = revised x.bullet c in
      commit true c.max_chars file
        (set_bullets x.section (set_at x.index b (bullets_of x.section s)) s) (updated b.id)
        (record {
          kind = pin_replace;
          section = x.section;
          id = b.id;
          text = b.text;
          old_text = some x.bullet.text;
        })

  abbrev pub apply_remove : Option Placed → Sections → Option Text → Call → Applied
  apply_remove none s file c = told not_found file
  apply_remove (some x) s file c =
      commit false c.max_chars file
        (set_bullets x.section (pop_at x.index (bullets_of x.section s)) s) (removed x.bullet.id)
        (record {
          kind = pin_remove;
          section = x.section;
          id = x.bullet.id;
          text = [];
          old_text = some x.bullet.text;
        })

  abbrev pub apply_op : Op → Sections → Option Text → Call → Applied
  apply_op add s file c = apply_add c.section s file c
  apply_op replace s file c = apply_replace (find chars s c.target) s file c
  apply_op remove s file c = apply_remove (find chars s c.target) s file c
  apply_op other s file c = told unknown_op file

  unfoldable pub apply : Option Text → Call → Applied
  unfolding parse find next_id strip_incoming_tag commit set_at pop_at
  apply file c = apply_op c.op (parse chars (file_text file)) file c
