-- ===== src/MindState/RoundTrip.antt =====
-- A saved state is what the next start loads.
use doll_os.Prelude.{
  ◌>>=◌, ℕ, ◌+◌, ◌-◌, ◌≤◌, ◌≡◌, refl, ap, sym, ◌∙◌, String, true, false, Option, none, some, List,
  [], ◌∷◌, ◌++◌, map, length, drop, All, arith, eq_iff, inl, inr, ◌<◌, length-append, ◌⊎◌, ◌≢◌,
  Option-cases,
}
use mathlib.Core.List.{append-nil, append_assoc}
use doll_os.Prelude.Dict.{Dict, get, put, get-append}
use doll_os.Prelude.Floats.{Floats}
use doll_os.MindState.Json.{
  Json, number, count, array, object, as_array, as_object, from-to_items, from-to_members,
}
use doll_os.MindState.Rows.{
  Mood, ActiveTask, PendingEvent, OpenLoop, PerceptionRow, OutputRecord, ToolFailure, write_mood,
  read_mood, write_task, read_task, write_event, read_event, write_loop, read_loop,
  write_perception, read_perception, write_output, read_output, write_failure, read_failure,
  read_each, read_list,
}
use doll_os.MindState.State.{
  MindState, Disk, Loaded, loaded, deque_of, put_stat, put_stats, state_dict, save_state, is_legacy,
  read_perceptions, clamp, read_state, load_present, load_state, load_error, decode_error, Content,
  not_text, not_json, holds,
}

module _ {Real : Type 0} where
  read_each-map :
      {A : Type 0} (write : A → Json Real) (read : Json Real → Option A) (xs : List A)
      → ((a : A) → read (write a) ≡ some a)
      → read_each read (map write xs) ≡ some xs
  unfolding read_each
  read_each-map write read [] h = refl
  read_each-map write read (x ∷ xs) h = rw (h x, read_each-map write read xs h) refl

  read_list-array :
      {A : Type 0} (write : A → Json Real) (read : Json Real → Option A) (xs : List A)
      → ((a : A) → read (write a) ≡ some a)
      → read_list read (array (map write xs)) ≡ some xs
  unfolding read_list as_array
  read_list-array write read xs h =
      rw (from-to_items (map write xs)) (read_each-map write read xs h)

  mood-mood : (m : Mood Real) → read_mood (write_mood m) ≡ some m
  unfolding read_mood write_mood as_object get
  mood-mood m = refl

  task-task : (a : ActiveTask Real) → read_task (write_task a) ≡ some a
  unfolding read_task write_task
  task-task a = refl

  event-event : (e : PendingEvent Real) → read_event (write_event e) ≡ some e
  unfolding read_event write_event
  event-event e = refl

  loop-loop : (l : OpenLoop Real) → read_loop (write_loop l) ≡ some l
  unfolding read_loop write_loop
  loop-loop l = refl

  output-output : (o : OutputRecord Real) → read_output (write_output o) ≡ some o
  unfolding read_output write_output
  output-output o = refl

  failure-failure : (f : ToolFailure Real) → read_failure (write_failure f) ≡ some f
  unfolding read_failure write_failure
  failure-failure f = refl

deque_of-short : {A : Type 0} (n : ℕ) (xs : List A) → length xs ≤ n → deque_of n xs ≡ xs
deque_of-short n xs h = ap (λ k. drop k xs) (none_over (length xs) n h)
  where
    none_over : (k m : ℕ) → k ≤ m → k - m ≡ 0
    none_over k m h = omega (arith, h)

module _ {V : Type 0} where
  put-new : (d : Dict V) (k : String) (v : V) → get d k ≡ none → put d k v ≡ d ++ (k, v) ∷ []
  unfolding get put
  put-new [] k v h = refl
  put-new ((j, w) ∷ d) k v h = ground (arith, h, put-new d k v)

  -- The keys of a dictionary differ.
  abbrev pub KeysDiffer : Dict V → Type 0
  KeysDiffer [] = Unit
  KeysDiffer ((k, v) ∷ d) = (get d k ≡ none) × KeysDiffer d

  -- The second dictionary has no key of the first.
  abbrev Apart : Dict V → Dict V → Type 0
  Apart d [] = Unit
  Apart d ((k, v) ∷ e) = (get d k ≡ none) × Apart d e

  Apart-one :
      (d e : Dict V) (k : String) (v : V) → get e k ≡ none → Apart d e → Apart (d ++ (k, v) ∷ []) e
  unfolding get
  Apart-one d [] k v h a = tt
  Apart-one d ((j, w) ∷ e) k v h (n, a) = (
    rw (get-append d ((k, v) ∷ []) j, n) (ground (arith, h, eq_iff k j, eq_iff j k)),
    Apart-one d e k v (ground (arith, h)) a,
  )

  Apart-nil : (e : Dict V) → Apart [] e
  unfolding get
  Apart-nil [] = tt
  Apart-nil ((k, v) ∷ e) = (refl, Apart-nil e)

  put_stat-new :
      (d : Dict V) (k : String) (v : V)
      → get d k ≡ none
      → length d < 50
      → put_stat d k v ≡ d ++ (k, v) ∷ []
  unfolding put_stat
  put_stat-new d k v n h = ground (arith, n, h, put-new d k v n)

  put_stats-all :
      (d e : Dict V) → length d + length e ≤ 50 → Apart d e → KeysDiffer e → put_stats d e ≡ d ++ e
  unfolding put_stats
  put_stats-all d [] h a k = sym (append-nil d)
  put_stats-all d ((k, v) ∷ e) h (n, a) (m, q) = rw (put_stat-new d k v n (omega (arith, h))) (
      put_stats-all (d ++ (k, v) ∷ []) e (rw (length-append d ((k, v) ∷ [])) (omega (arith, h)))
        (Apart-one d e k v m a) q
      ∙ append_assoc d ((k, v) ∷ []) e)

module _ (floats : Floats) (float_of : Json floats.Real → Option floats.Real)
    (count_of : Json floats.Real → Option ℕ) where
  open floats use {Real}

  abbrev pub Known : PerceptionRow Real → Type 0
  Known p = is_legacy floats float_of count_of (some p.kind) ≡ some false

  -- What the daemon keeps of its state: the bounds of its queues and of the statistics, an energy in
  -- its range, and no perception of a kind that was removed.
  pub record Kept (s : MindState Real) : Type 0 where
    pub perceptions : length s.recent_perceptions ≤ 20
    pub known : All Known s.recent_perceptions
    pub outputs : length s.recent_outputs ≤ 15
    pub failures : length s.recent_tool_failures ≤ 10
    pub stats : length s.tool_stats ≤ 50
    pub tools : KeysDiffer s.tool_stats
    pub energy : clamp floats float_of count_of s.energy ≡ s.energy

  read_perceptions-map :
      (ps : List (PerceptionRow Real))
      → All Known ps
      → read_perceptions floats float_of count_of (map write_perception ps) ≡ some ps
  unfolding read_perceptions write_perception read_perception as_object get
  read_perceptions-map [] k = refl
  read_perceptions-map (p ∷ ps) (k, ks) = rw (read_perceptions-map ps ks, k) refl

  read_state-state_dict :
      (now : Real) (s : MindState Real)
      → ((x : Real) → float_of (number x) ≡ some x)
      → ((n : ℕ) → count_of (count n) ≡ some n)
      → Kept s
      → read_state floats float_of count_of now (state_dict floats float_of count_of s)
        ≡ some (record s { session_started_at = number now })
  unfolding read_state state_dict get
  read_state-state_dict now s hf hc k =
      simp
        (
          mood-mood s.mood,
          read_list-array write_task read_task s.active_tasks task-task,
          read_list-array write_event read_event s.pending_events event-event,
          read_list-array write_loop read_loop s.open_loops loop-loop,
          from-to_items (map write_perception s.recent_perceptions),
          read_perceptions-map s.recent_perceptions k.known,
          read_list-array write_output read_output s.recent_outputs output-output,
          read_list-array write_failure read_failure s.recent_tool_failures failure-failure,
          from-to_members s.tool_stats,
          hf s.energy,
          hf s.last_evolution_attempt_at,
          hf s.evolution_interval_days,
          hc s.evolution_hwm,
          deque_of-short 20 s.recent_perceptions k.perceptions,
          deque_of-short 15 s.recent_outputs k.outputs,
          deque_of-short 10 s.recent_tool_failures k.failures,
          put_stats-all [] s.tool_stats (omega (arith, k.stats)) (Apart-nil s.tool_stats) k.tools,
          k.energy,
        )
        refl

  load_present-object :
      (now : Real) (d : Dict (Json Real)) (disk : Disk Real) (s : MindState Real)
      → read_state floats float_of count_of now d ≡ some s
      → load_present floats float_of count_of now (holds (object d)) disk ≡ (loaded s, disk)
  unfolding load_present as_object
  load_present-object now d disk s e = rw (load_present, from-to_members d, e) refl

  -- Where Python reads back the numbers that it wrote: a state that the daemon keeps, saved and then
  -- loaded, is the same state with a new start of the session, and the file stays.
  pub load_state-save_state :
      (now : Real) (s : MindState Real) (disk : Disk Real)
      → ((x : Real) → float_of (number x) ≡ some x)
      → ((n : ℕ) → count_of (count n) ≡ some n)
      → Kept s
      → load_state floats float_of count_of now (save_state floats float_of count_of true s disk).1
        ≡ (
          loaded (record s { session_started_at = number now }),
          (save_state floats float_of count_of true s disk).1,
        )
  unfolding load_state save_state
  load_state-save_state now s disk hf hc k =
      load_present-object now (state_dict floats float_of count_of s) _ _
        (read_state-state_dict now s hf hc k)

  -- A state is loaded and the file stays; or the load raises its error and what the file had, which is
  -- some text, is put aside; or the file is no text, and then the load raises and the file stays.
  abbrev pub Surfaces : Content Real → Loaded Real × Disk Real → Type 0
  Surfaces content r =
      ((s : MindState Real) × (r.0 ≡ loaded s) × (r.1.file ≡ some content))
      ⊎ (((r.0 ≡ load_error)
            × (content ≢ not_text)
            × (r.1.file ≡ none)
            × (r.1.quarantined ≡ some content))
          ⊎ ((r.0 ≡ decode_error) × (content ≡ not_text) × (r.1.file ≡ some content)))

  -- Where there is a file, whatever stands in it: the load is never a fresh start. A state is loaded and
  -- the file stays; or the load raises its own error and what the file had is put aside; or, for bytes
  -- that are no text and for them alone, it raises the error of the decoder and the file stays.
  pub load_state-present :
      (now : Real) (content : Content Real) (disk : Disk Real)
      → disk.file ≡ some content
      → Surfaces content (load_state floats float_of count_of now disk)
  unfolding load_state load_present
  load_state-present now not_text disk e = rw (load_state, e) (inr (inr (refl, refl, e)))
  load_state-present now not_json disk e =
      rw (load_state, e) (inr (inl (refl, λ h. cc, refl, refl)))
  load_state-present now (holds v) disk e =
      rw (load_state, e)
        (elim (Option-cases (as_object v >>= read_state floats float_of count_of now)) [
          | inl n ↦ rw (load_present, n) (inr (inl (refl, λ h. cc, refl, refl)))
          | inr (s, y) ↦ rw (load_present, y) (inl (s, refl, e))
        ])
