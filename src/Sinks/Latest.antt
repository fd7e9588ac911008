-- ===== src/Sinks/Latest.antt =====
-- The sink of a turn is the one that was registered last.
use doll_os.Prelude.{
  ℕ, ◌+◌, ◌<◌, ◌≡◌, refl, ap, sym, ◌∙◌, String, Bool, Option, none, some, List, [], ◌∷◌, ◌++◌, ltb,
  keep, All, if◌then◌else◌, arith, Bool-cases, Option-cases, inl, inr, subst, some_inj,
}
use doll_os.Sinks.{
  Entry, Resolver, register, unregister, is_external, is_internal, insert_descending,
  sorted_descending, first_match, later, greatest, external_for, resolve, Change, registers,
  unregisters, changes, sink_of,
}

module _ (Sink : Type 0) where
  -- The last entry of the list that passes the test.
  unfoldable pub last_match : (Entry Sink → Bool) → List (Entry Sink) → Option (Entry Sink)
  last_match p [] = none
  last_match p (e ∷ es) = elim (last_match p es) [
    | none ↦ if p e then some e else none
    | some f ↦ some f
  ]

  -- Every handle is below the ones of the later entries.
  abbrev Ascending : List (Entry Sink) → Type 0
  Ascending [] = Unit
  Ascending (e ∷ es) = All (λ (f : Entry Sink). e.handle < f.handle) es × Ascending es

  abbrev Below : ℕ → List (Entry Sink) → Type 0
  Below n es = All (λ (f : Entry Sink). f.handle < n) es

  insert-end :
      (e : Entry Sink) (es : List (Entry Sink))
      → All (λ (f : Entry Sink). e.handle < f.handle) es
      → insert_descending Sink e es ≡ es ++ e ∷ []
  unfolding insert_descending
  insert-end e [] a = refl
  insert-end e (f ∷ fs) (h, a) = ground (arith, h, insert-end e fs a)

  All-insert :
      (n : ℕ) (e : Entry Sink) (es : List (Entry Sink))
      → n < e.handle
      → All (λ (f : Entry Sink). n < f.handle) es
      → All (λ (f : Entry Sink). n < f.handle) (insert_descending Sink e es)
  unfolding insert_descending
  All-insert n e [] h a = (h, tt)
  All-insert n e (f ∷ fs) h (g, a) = elim (Bool-cases (ltb e.handle f.handle)) [
    | inl y ↦ rw y (g, All-insert n e fs h a)
    | inr y ↦ rw y (h, (g, a))
  ]

  All-sorted :
      (n : ℕ) (es : List (Entry Sink))
      → All (λ (f : Entry Sink). n < f.handle) es
      → All (λ (f : Entry Sink). n < f.handle) (sorted_descending Sink es)
  unfolding sorted_descending
  All-sorted n [] a = tt
  All-sorted n (e ∷ es) (h, a) = All-insert n e (sorted_descending Sink es) h (All-sorted n es a)

  first_match-append :
      (p : Entry Sink → Bool) (es : List (Entry Sink)) (e : Entry Sink)
      → first_match Sink p (es ++ e ∷ [])
        ≡ elim (first_match Sink p es) [ none ↦ if p e then some e else none | some f ↦ some f ]
  unfolding first_match
  first_match-append p [] e = refl
  first_match-append p (f ∷ fs) e = ground (arith, first_match-append p fs e)

  first_match-sorted :
      (p : Entry Sink → Bool) (es : List (Entry Sink))
      → Ascending es
      → first_match Sink p (sorted_descending Sink es) ≡ last_match p es
  unfolding sorted_descending last_match first_match
  first_match-sorted p [] a = refl
  first_match-sorted p (e ∷ es) (h, a) =
      ap (first_match Sink p) (insert-end e (sorted_descending Sink es) (All-sorted e.handle es h))
      ∙ first_match-append p (sorted_descending Sink es) e
      ∙ rw (first_match-sorted p es a) refl

  last_match-above :
      (n : ℕ) (p : Entry Sink → Bool) (es : List (Entry Sink)) (f : Entry Sink)
      → All (λ (f : Entry Sink). n < f.handle) es
      → last_match p es ≡ some f
      → n < f.handle
  unfolding last_match
  last_match-above n p [] f a = λ e. absurd (ground (arith, e))
  last_match-above n p (g ∷ gs) f (h, a) = elim (Option-cases (last_match p gs)) [
    | inl z ↦ rw z (elim (Bool-cases (p g)) [
      | inl y ↦ rw y (λ e. subst (λ (x : Entry Sink). n < x.handle) (some_inj e) h)
      | inr y ↦ rw y (λ e. absurd (ground (arith, e)))
    ])
    | inr (b, z) ↦ rw z (λ e. last_match-above n p gs f a (z ∙ e))
  ]

  later-above : (e f : Entry Sink) → e.handle < f.handle → later Sink e (some f) ≡ f
  later-above e f h = ground (arith, h)

  All-keep :
      (P : Entry Sink → Type 0) (p : Entry Sink → Bool) (es : List (Entry Sink))
      → All P es
      → All P (keep p es)
  All-keep P p [] a = tt
  All-keep P p (e ∷ es) (h, a) = elim (Bool-cases (p e)) [
    | inl y ↦ rw y (h, All-keep P p es a)
    | inr y ↦ rw y (All-keep P p es a)
  ]

  All-end :
      (P : Entry Sink → Type 0) {e : Entry Sink} (es : List (Entry Sink))
      → All P es
      → P e
      → All P (es ++ e ∷ [])
  All-end P [] a h = (h, tt)
  All-end P (f ∷ fs) (g, a) h = (g, All-end P fs a h)

  greatest-keep :
      (p : Entry Sink → Bool) (es : List (Entry Sink))
      → Ascending es
      → greatest Sink (keep p es) ≡ last_match p es
  unfolding greatest last_match
  greatest-keep p [] a = refl
  greatest-keep p (e ∷ es) (h, a) =
      let known = greatest-keep p es a in
      elim (Option-cases (last_match p es)) [
        | inl z ↦
            rw z (elim (Bool-cases (p e)) [
              | inl y ↦ rw (y, known ∙ z) refl
              | inr y ↦ rw y (known ∙ z)
            ])
        | inr (b, z) ↦ rw z (elim (Bool-cases (p e)) [
          | inl y ↦
              rw (y, known ∙ z) (ap some (later-above e b (last_match-above e.handle p es b h z)))
          | inr y ↦ rw y (known ∙ z)
        ])
      ]

  Ascending-keep :
      (p : Entry Sink → Bool) (es : List (Entry Sink)) → Ascending es → Ascending (keep p es)
  Ascending-keep p [] a = tt
  Ascending-keep p (e ∷ es) (h, a) = elim (Bool-cases (p e)) [
    | inl y ↦
        rw y (All-keep (λ (f : Entry Sink). e.handle < f.handle) p es h, Ascending-keep p es a)
    | inr y ↦ rw y (Ascending-keep p es a)
  ]

  Ascending-end :
      (es : List (Entry Sink)) (e : Entry Sink)
      → Below e.handle es
      → Ascending es
      → Ascending (es ++ e ∷ [])
  Ascending-end [] e b a = (tt, tt)
  Ascending-end (f ∷ fs) e (g, b) (h, a) =
      (All-end (λ (x : Entry Sink). f.handle < x.handle) fs h g, Ascending-end fs e b a)

  -- The handles are below the counter, in the order of registration.
  abbrev pub Ordered : Resolver Sink → Type 0
  Ordered r = Ascending r.entries × Below r.counter r.entries

  Below-suc : (n : ℕ) (es : List (Entry Sink)) → Below n es → Below (n + 1) es
  Below-suc n [] b = tt
  Below-suc n (e ∷ es) (h, b) = (omega (arith, h), Below-suc n es b)

  changes-Ordered :
      (cs : List (Change Sink)) (r : Resolver Sink) → Ordered r → Ordered (changes Sink cs r)
  unfolding changes
  changes-Ordered [] r o = o
  changes-Ordered (registers sink locus channel_id ∷ cs) r (a, b) =
      changes-Ordered cs (register Sink sink locus channel_id r).1 (
        Ascending-end r.entries _ b a,
        All-end (λ (f : Entry Sink). f.handle < r.counter + 1) r.entries
            (Below-suc r.counter r.entries b) (omega arith),
      )
  changes-Ordered (unregisters handle ∷ cs) r (a, b) =
      changes-Ordered cs (unregister Sink handle r) (
        Ascending-keep _ r.entries a,
        All-keep (λ (f : Entry Sink). f.handle < r.counter) _ r.entries b,
      )

  -- The last entry that suits the origin, as the list has them.
  abbrev pub latest_external : Option String → List (Entry Sink) → Option (Entry Sink)
  latest_external none es = none
  latest_external (some o) es = last_match (is_external Sink o) es

  abbrev pub latest : Option String → List (Entry Sink) → Option Sink
  latest origin es = sink_of Sink (latest_external origin es) (last_match (is_internal Sink) es)

  external-latest :
      (origin : Option String) (es : List (Entry Sink))
      → Ascending es
      → external_for Sink origin es ≡ latest_external origin es
  external-latest none es a = refl
  external-latest (some o) es a = first_match-sorted (is_external Sink o) es a

  -- Whatever was registered and unregistered since the start: a turn's sink is, of those that are still
  -- registered, the last one for its channel, and else the last internal one, and the dummy if there is
  -- none.
  pub resolve-latest :
      (cs : List (Change Sink)) (r : Resolver Sink) (origin : Option String)
      → r.entries ≡ []
      → resolve Sink origin (changes Sink cs r) ≡ latest origin (changes Sink cs r).entries
  unfolding resolve
  resolve-latest cs r origin e =
      let o =
        changes-Ordered cs r (subst Ascending (sym e) tt, subst (Below r.counter) (sym e) tt) in
      let es = (changes Sink cs r).entries in
      ap (λ x. sink_of Sink x (greatest Sink (keep (is_internal Sink) es)))
        (external-latest origin es o.0)
      ∙ ap (sink_of Sink (latest_external origin es)) (greatest-keep (is_internal Sink) es o.0)
