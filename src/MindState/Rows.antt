-- ===== src/MindState/Rows.antt =====
-- The records in the state of the mind: how each is written (`asdict`) and read (`_coerce`, which
-- drops the keys that it does not know). A field holds whatever JSON value was given.
use doll_os.Prelude.{◌>>=◌, false, Option, some, List, [], ◌∷◌}
use doll_os.Prelude.Dict.{get}
use doll_os.MindState.Json.{
  Json, null, truth, text, to_members, array, object, as_array, as_object, or_default, to_items,
}

pub record Mood (Real : Type 0) : Type 0 where
  pub emotion : Json Real
  pub reason : Json Real

pub record ActiveTask (Real : Type 0) : Type 0 where
  pub task_id : Json Real
  pub kind : Json Real
  pub summary : Json Real
  pub started_at : Json Real

pub record PendingEvent (Real : Type 0) : Type 0 where
  pub fire_at : Json Real
  pub summary : Json Real

pub record OpenLoop (Real : Type 0) : Type 0 where
  pub id : Json Real
  pub desc : Json Real
  pub opened_at : Json Real
  pub self_directed : Json Real
  pub trigger : Json Real
  pub provenance : Json Real
  pub progress : Json Real

-- `Perception`
pub record PerceptionRow (Real : Type 0) : Type 0 where
  pub kind : Json Real
  pub t : Json Real
  pub data_of : Json Real
  pub seq : Json Real

pub record OutputRecord (Real : Type 0) : Type 0 where
  pub t : Json Real
  pub kind : Json Real
  pub summary : Json Real
  pub origin_tier : Json Real

pub record ToolFailure (Real : Type 0) : Type 0 where
  pub t : Json Real
  pub tool : Json Real
  pub detail : Json Real

module _ {Real : Type 0} where
  unfoldable pub write_mood : Mood Real → Json Real
  unfolding to_members
  write_mood m = object (("emotion", m.emotion) ∷ ("reason", m.reason) ∷ [])

  unfoldable pub read_mood : Json Real → Option (Mood Real)
  unfolding as_object get
  read_mood v = do
    d ← as_object v
    some (record {
      emotion = or_default (get d "emotion") (text "calm");
      reason = or_default (get d "reason") (text "");
    })

  unfoldable pub write_task : ActiveTask Real → Json Real
  unfolding to_members
  write_task a = object (
      ("task_id", a.task_id)
      ∷ ("kind", a.kind)
      ∷ ("summary", a.summary)
      ∷ ("started_at", a.started_at)
      ∷ [])

  unfoldable pub read_task : Json Real → Option (ActiveTask Real)
  unfolding as_object get
  read_task v = do
    d ← as_object v
    task_id ← get d "task_id"
    kind ← get d "kind"
    summary ← get d "summary"
    started_at ← get d "started_at"
    some (record { task_id = task_id; kind = kind; summary = summary; started_at = started_at })

  unfoldable pub write_event : PendingEvent Real → Json Real
  unfolding to_members
  write_event e = object (("fire_at", e.fire_at) ∷ ("summary", e.summary) ∷ [])

  unfoldable pub read_event : Json Real → Option (PendingEvent Real)
  unfolding as_object get
  read_event v = do
    d ← as_object v
    fire_at ← get d "fire_at"
    summary ← get d "summary"
    some (record { fire_at = fire_at; summary = summary })

  unfoldable pub write_loop : OpenLoop Real → Json Real
  unfolding to_members
  write_loop l = object (
      ("id", l.id)
      ∷ ("desc", l.desc)
      ∷ ("opened_at", l.opened_at)
      ∷ ("self_directed", l.self_directed)
      ∷ ("trigger", l.trigger)
      ∷ ("provenance", l.provenance)
      ∷ ("progress", l.progress)
      ∷ [])

  unfoldable pub read_loop : Json Real → Option (OpenLoop Real)
  unfolding as_object get to_members to_items
  read_loop v = do
    d ← as_object v
    id ← get d "id"
    desc ← get d "desc"
    opened_at ← get d "opened_at"
    some (record {
      id = id;
      desc = desc;
      opened_at = opened_at;
      self_directed = or_default (get d "self_directed") (truth false);
      trigger = or_default (get d "trigger") (text "");
      provenance = or_default (get d "provenance") (object []);
      progress = or_default (get d "progress") (array []);
    })

  unfoldable pub write_perception : PerceptionRow Real → Json Real
  unfolding to_members
  write_perception p =
      object (("kind", p.kind) ∷ ("t", p.t) ∷ ("data", p.data_of) ∷ ("seq", p.seq) ∷ [])

  unfoldable pub read_perception : Json Real → Option (PerceptionRow Real)
  unfolding as_object get
  read_perception v = do
    d ← as_object v
    kind ← get d "kind"
    t ← get d "t"
    data_of ← get d "data"
    some (record { kind = kind; t = t; data_of = data_of; seq = or_default (get d "seq") null })

  unfoldable pub write_output : OutputRecord Real → Json Real
  unfolding to_members
  write_output o =
      object (
        ("t", o.t)
        ∷ ("kind", o.kind)
        ∷ ("summary", o.summary)
        ∷ ("origin_tier", o.origin_tier)
        ∷ [])

  -- `{"origin_tier": "external_public", **o}`
  unfoldable pub read_output : Json Real → Option (OutputRecord Real)
  unfolding as_object get
  read_output v = do
    d ← as_object v
    t ← get d "t"
    kind ← get d "kind"
    summary ← get d "summary"
    some (record {
      t = t;
      kind = kind;
      summary = summary;
      origin_tier = or_default (get d "origin_tier") (text "external_public");
    })

  unfoldable pub write_failure : ToolFailure Real → Json Real
  unfolding to_members
  write_failure f = object (("t", f.t) ∷ ("tool", f.tool) ∷ ("detail", f.detail) ∷ [])

  unfoldable pub read_failure : Json Real → Option (ToolFailure Real)
  unfolding as_object get
  read_failure v = do
    d ← as_object v
    t ← get d "t"
    tool ← get d "tool"
    detail ← get d "detail"
    some (record { t = t; tool = tool; detail = detail })

  -- `[read(x) for x in v]`
  unfoldable pub read_each :
      {A : Type 0} → (Json Real → Option A) → List (Json Real) → Option (List A)
  read_each read [] = some []
  read_each read (x ∷ xs) = do a ← read x; more ← read_each read xs; some (a ∷ more)

  unfoldable pub read_list : {A : Type 0} → (Json Real → Option A) → Json Real → Option (List A)
  unfolding as_array read_each
  read_list read v = do xs ← as_array v; read_each read xs
