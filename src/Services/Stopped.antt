-- ===== src/Services/Stopped.antt =====
-- What holds of a service whatever its two tasks do, and of one that is stopped.
use doll_os.Prelude.Floats.{Floats}
use doll_os.Prelude.{◌≡◌, ◌≢◌, refl, ◌∙◌, sym, true, false, arith, Bool-cases, inl, inr}
use doll_os.Services.{
  ServiceSpec, ServiceState, Exit, no_code, live, running, stopped, leave, after_exit, new_state,
}
use doll_os.Services.Life.{
  Loop, unstarted, head, spawning, waiting, sleeping, over, Halt, uncalled, grace, killing, joining,
  last_look, halted, World, at, loop_of, with_dead, IsDone, exit_world, Step, start, enter,
  leave_loop, spawned, aborted, spawn_failed, noticed, woke, died, interrupt, skip_signal,
  ended_in_time, escalate, killed, cancelled, joined, finished, Reach, here, next,
}

-- The loop will not start a process any more.
abbrev pub AtRest : Loop → Type 0
AtRest unstarted = Unit
AtRest head = Unit
AtRest over = Unit
AtRest spawning = ⊥
AtRest waiting = ⊥
AtRest sleeping = ⊥

-- What `_stop_one` has achieved where it stands.
abbrev pub Achieved : Halt → Loop → ServiceState → Type 0
Achieved uncalled l st = st.stopping ≡ false
Achieved grace l st = st.stopping ≡ true
Achieved killing l st = st.stopping ≡ true
Achieved joining l st = (st.stopping ≡ true) × (st.proc ≢ live)
Achieved last_look l st = (st.stopping ≡ true) × (st.proc ≢ live) × AtRest l
Achieved halted l st = (st.stopping ≡ true) × (st.proc ≢ live) × AtRest l × (st.phase ≡ stopped)

-- Where the loop may yet start a process, none lives.
abbrev pub Alone : Loop → ServiceState → Type 0
Alone unstarted st = st.proc ≢ live
Alone head st = st.proc ≢ live
Alone spawning st = st.proc ≢ live
Alone sleeping st = st.proc ≢ live
Alone waiting st = Unit
Alone over st = Unit

abbrev pub Sound : World → Type 0
Sound (at l h st) = Achieved h l st × Alone l st

Achieved-move :
    (h : Halt) (l m : Loop) (st : ServiceState)
    → (AtRest l → AtRest m)
    → Achieved h l st
    → Achieved h m st
Achieved-move uncalled l m st f a = a
Achieved-move grace l m st f a = a
Achieved-move killing l m st f a = a
Achieved-move joining l m st f a = a
Achieved-move last_look l m st f a = (a.0, a.1, f a.2)
Achieved-move halted l m st f a = (a.0, a.1, f a.2, a.3)

-- A service that is not stopping may go on in any way.
Achieved-uncalled :
    (h : Halt) (l m : Loop) (st q : ServiceState)
    → st.stopping ≡ false
    → q.stopping ≡ st.stopping
    → Achieved h l st
    → Achieved h m q
Achieved-uncalled uncalled l m st q n e a = e ∙ a
Achieved-uncalled grace l m st q n e a = cc
Achieved-uncalled killing l m st q n e a = cc
Achieved-uncalled joining l m st q n e a = let t = a.0 in cc
Achieved-uncalled last_look l m st q n e a = let t = a.0 in cc
Achieved-uncalled halted l m st q n e a = let t = a.0 in cc

Achieved-dead :
    (h : Halt) (l : Loop) (st : ServiceState)
    → st.proc ≡ live
    → Achieved h l st
    → Achieved h l (with_dead st)
Achieved-dead uncalled l st e a = a
Achieved-dead grace l st e a = a
Achieved-dead killing l st e a = a
Achieved-dead joining l st e a = absurd (a.1 e)
Achieved-dead last_look l st e a = absurd (a.1 e)
Achieved-dead halted l st e a = absurd (a.1 e)

Alone-dead : (l : Loop) (st : ServiceState) → st.proc ≢ live → Alone l st
Alone-dead unstarted st d = d
Alone-dead head st d = d
Alone-dead spawning st d = d
Alone-dead sleeping st d = d
Alone-dead waiting st d = tt
Alone-dead over st d = tt

-- Neither the process nor the stop is what a state depends on here.
Alone-proc : (l : Loop) (st q : ServiceState) → q.proc ≡ st.proc → Alone l st → Alone l q
Alone-proc unstarted st q e a = λ f. a (sym e ∙ f)
Alone-proc head st q e a = λ f. a (sym e ∙ f)
Alone-proc spawning st q e a = λ f. a (sym e ∙ f)
Alone-proc sleeping st q e a = λ f. a (sym e ∙ f)
Alone-proc waiting st q e a = tt
Alone-proc over st q e a = tt

IsDone-AtRest : (l : Loop) → IsDone l → AtRest l
IsDone-AtRest unstarted d = tt
IsDone-AtRest over d = tt
IsDone-AtRest head d = absurd d
IsDone-AtRest spawning d = absurd d
IsDone-AtRest waiting d = absurd d
IsDone-AtRest sleeping d = absurd d

module _ (floats : Floats) where
  open floats use {Real}

  after_exit-stopping :
      (rc : Exit) (uptime : Real) (st : ServiceState)
      → ((after_exit floats rc uptime st).0.stopping ≡ st.stopping)
        × ((after_exit floats rc uptime st).0.proc ≡ st.proc)
  unfolding after_exit
  after_exit-stopping rc uptime st = ground arith

  after_exit-stopped :
      (rc : Exit) (uptime : Real) (st : ServiceState)
      → st.stopping ≡ true
      → after_exit floats rc uptime st ≡ (st, leave)
  unfolding after_exit
  after_exit-stopped rc uptime st h = rw h refl

  exit-Sound :
      (h : Halt) (l : Loop) (rc : Exit) (uptime : Real) (st : ServiceState)
      → (AtRest l → ⊥)
      → st.proc ≢ live
      → Achieved h l st
      → Sound (exit_world floats h (after_exit floats rc uptime st))
  exit-Sound h l rc uptime st n d a =
      let keeps = after_exit-stopping rc uptime st in
      elim (Bool-cases st.stopping) [
        | inl y ↦
            rw (after_exit-stopped rc uptime st y)
              (Achieved-move h l over st (λ r. absurd (n r)) a, tt)
        | inr f ↦ (
          Achieved-uncalled h l (loop_of (after_exit floats rc uptime st).1) st
              (after_exit floats rc uptime st).0 f keeps.0 a,
          Alone-dead (loop_of (after_exit floats rc uptime st).1) (after_exit floats rc uptime st).0
              (λ e. d (sym keeps.1 ∙ e)),
        )
      ]

  step-Sound : (v w : World) → Step floats v w → Sound v → Sound w
  step-Sound v w (start {h} {st}) s = (Achieved-move h unstarted head st (λ r. tt) s.0, s.1)
  step-Sound v w (enter {h} {st} p) s = (Achieved-uncalled h head spawning st st p refl s.0, s.1)
  step-Sound v w (leave_loop {h} {st} p) s = (Achieved-move h head over st (λ r. tt) s.0, tt)
  step-Sound v w (spawned {h} {st} p) s = (
    Achieved-uncalled h spawning waiting st (record st { proc = live; phase = running }) p refl s.0,
    tt,
  )
  step-Sound v w (aborted {h} {st} p) s = (Achieved-move h spawning over st (λ r. tt) s.0, tt)
  step-Sound v w (spawn_failed {h} {st} u) s = exit-Sound h spawning no_code u st (λ r. r) s.1 s.0
  step-Sound v w (noticed {h} {st} rc u p) s = exit-Sound h waiting rc u st (λ r. r) p s.0
  step-Sound v w (woke {h} {st}) s = (Achieved-move h sleeping head st (λ r. tt) s.0, s.1)
  step-Sound v w (died {l} {h} {st} p) s =
      (Achieved-dead h l st p s.0, Alone-dead l (with_dead st) (λ e. cc))
  step-Sound v w (interrupt {l} {st} p) s =
      (refl, Alone-proc l st (record st { stopping = true }) refl s.1)
  step-Sound v w (skip_signal {l} {st} p) s =
      ((refl, p), Alone-proc l st (record st { stopping = true }) refl s.1)
  step-Sound v w (ended_in_time {l} {st} p) s = ((s.0, p), s.1)
  step-Sound v w escalate s = s
  step-Sound v w (killed {l} {st} p) s = ((s.0, p), s.1)
  step-Sound v w cancelled s = (s.0, tt)
  step-Sound v w (joined {l} {st} d) s = ((s.0.0, s.0.1, IsDone-AtRest l d), s.1)
  step-Sound v w (finished {l} {st} p) s =
      ((s.0.0, p, s.0.2, refl), Alone-proc l st (record st { phase = stopped }) refl s.1)

  -- However the loop of a new service and its stop are interleaved: a process is started only where
  -- none lives; once the stop has its process dead, no process lives any more; and once it is done, the loop
  -- starts no other and the phase is stopped.
  pub reach-Sound :
      (spec : ServiceSpec) (w : World)
      → Reach floats (at unstarted uncalled (new_state spec)) w
      → Sound w
  reach-Sound spec w here = (refl, λ e. cc)
  reach-Sound spec w (next {u} r s) = step-Sound u w s (reach-Sound spec u r)
