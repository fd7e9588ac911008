-- ===== src/Sinks.antt =====
-- src/dollos/mind/sink_resolver.py: where Doll's words go. The two dictionaries of the resolver have
-- the same keys and are one list here, in the order of registration.
pub mod Latest
mod Examples
use doll_os.Prelude.{
  ℕ, ◌+◌, String, Bool, true, false, not, ◌&&◌, ◌==◌, Option, none, some, List, [], ◌∷◌, ◌++◌, eqb,
  ltb, keep, if◌then◌else◌,
}

module _ (Sink : Type 0) where
  pub record Entry : Type 0 where
    pub handle : ℕ
    pub sink : Sink
    pub locus : String
    pub channel_id : Option String

  pub record Resolver : Type 0 where
    pub entries : List Entry
    pub counter : ℕ

  -- `SinkResolver.register`: the handle and the resolver.
  unfoldable pub register : Sink → String → Option String → Resolver → ℕ × Resolver
  register sink locus channel_id r = (
    r.counter,
    record {
      entries =
          r.entries
          ++ record { handle = r.counter; sink = sink; locus = locus; channel_id = channel_id }
            ∷ [];
      counter = r.counter + 1;
    },
  )

  unfoldable pub unregister : ℕ → Resolver → Resolver
  unregister handle r = record r { entries = keep (λ e. not (eqb e.handle handle)) r.entries }

  abbrev pub is_external : String → Entry → Bool
  is_external origin e =
      e.locus == "external" && (elim e.channel_id [ none ↦ false | some c ↦ c == origin ])

  abbrev pub is_internal : Entry → Bool
  is_internal e = e.locus == "internal"

  -- `sorted(sinks, reverse=True)`
  unfoldable pub insert_descending : Entry → List Entry → List Entry
  insert_descending e [] = e ∷ []
  insert_descending e (f ∷ fs) =
      let rest = insert_descending e fs in if ltb e.handle f.handle then f ∷ rest else e ∷ f ∷ fs

  unfoldable pub sorted_descending : List Entry → List Entry
  unfolding insert_descending
  sorted_descending [] = []
  sorted_descending (e ∷ es) = insert_descending e (sorted_descending es)

  unfoldable pub first_match : (Entry → Bool) → List Entry → Option Entry
  first_match p [] = none
  first_match p (e ∷ es) = if p e then some e else first_match p es

  abbrev pub later : Entry → Option Entry → Entry
  later e none = e
  later e (some f) = if ltb e.handle f.handle then f else e

  -- The entry of `max(handles)`.
  unfoldable pub greatest : List Entry → Option Entry
  greatest [] = none
  greatest (e ∷ es) = some (later e (greatest es))

  abbrev pub external_for : Option String → List Entry → Option Entry
  external_for none es = none
  external_for (some origin) es = first_match (is_external origin) (sorted_descending es)

  -- The sink of the first entry, or else of the second; none for the dummy sink.
  abbrev pub sink_of : Option Entry → Option Entry → Option Sink
  sink_of (some e) o = some e.sink
  sink_of none (some e) = some e.sink
  sink_of none none = none

  -- `SinkResolver.__call__`
  unfoldable pub resolve : Option String → Resolver → Option Sink
  unfolding first_match sorted_descending greatest
  resolve origin r = sink_of (external_for origin r.entries) (greatest (keep is_internal r.entries))

  pub data Change : Type 0 where
    registers : Sink → String → Option String → Change
    unregisters : ℕ → Change

  unfoldable pub changes : List Change → Resolver → Resolver
  unfolding register unregister
  changes [] r = r
  changes (registers sink locus channel_id ∷ cs) r = changes cs (register sink locus channel_id r).1
  changes (unregisters handle ∷ cs) r = changes cs (unregister handle r)
