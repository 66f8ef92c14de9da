-- ===== src/CompletionExercises/Stopping.antt =====
-- kthread_stop against the waiter of my_completion_ex1.c and my_completion_ex2.c.
use linux_driver_development.Base.{
  Bool, List, [], arith, inl, inr, refl, true, ℕ, ◌<◌, ◌∷◌, ◌≡◌, ◌≢◌, ◌⊎◌,
}
use linux_driver_development.CompletionExercises.{Thread, ended, looping, thread_step, waiting}
use linux_driver_development.Completion.{Driver, isr}
use linux_driver_development.CompletionExercises.Waiting.{
  Event, System, happen, interrupt, kthread_stop, run, waiter_runs, waiter_steps,
}

-- A stopped waiter that waits without an accepted press since there were `presses` of them; or it has returned, or
-- will as soon as it runs.
abbrev Held : ℕ → System → Type 0
Held presses s =
    (s.stopped ≡ true)
    × ((s.accepted ≡ presses) × (s.waiter ≡ waiting) × (s.driver.done ≡ 0)
        ⊎ (presses < s.accepted) × ((s.waiter ≢ waiting) ⊎ (0 < s.driver.done)))

step-Held :
    (presses accepted : ℕ) (stopped : Bool) (w : Thread) (d : Driver)
    → stopped ≡ true
    → (accepted ≡ presses) × (w ≡ waiting) × (d.done ≡ 0)
      ⊎ (presses < accepted) × ((w ≢ waiting) ⊎ (0 < d.done))
    → let (w', d', woke) = thread_step stopped w d in
      (accepted ≡ presses) × (w' ≡ waiting) × (d'.done ≡ 0)
      ⊎ (presses < accepted) × ((w' ≢ waiting) ⊎ (0 < d'.done))
unfolding thread_step
step-Held presses accepted stopped looping d s h = ground (arith, s, h)
step-Held presses accepted stopped waiting d s h = ground (arith, s, h)
step-Held presses accepted stopped ended d s h = h

returns_soon :
    (delay accepted : ℕ) (stopped : Bool) (w : Thread) (d : Driver) (wakes : ℕ)
    → stopped ≡ true
    → (w ≢ waiting) ⊎ (0 < d.done)
    → (run delay (waiter_steps 2) (record {
      driver = d;
      waiter = w;
      stopped = stopped;
      accepted = accepted;
      wakes = wakes;
    })).waiter
      ≡ ended
unfolding run happen thread_step waiter_steps
returns_soon delay accepted stopped looping d wakes h n = ground arith
returns_soon delay accepted stopped waiting d wakes h n = ground (arith, h, n)
returns_soon delay accepted stopped ended d wakes h n = refl

happen-Held :
    (delay : ℕ) (e : Event) (presses : ℕ) (s : System)
    → Held presses s
    → Held presses (happen delay e s)
unfolding happen isr thread_step
happen-Held delay (interrupt t) presses s h = (h.0, ground (arith, h.1))
happen-Held delay waiter_runs presses s h =
    (h.0, step-Held presses s.accepted s.stopped s.waiter s.driver h.0 h.1)
happen-Held delay kthread_stop presses s h = (refl, h.1)

run-Held :
    (delay : ℕ) (es : List Event) (presses : ℕ) (s : System)
    → Held presses s
    → Held presses (run delay es s)
unfolding run
run-Held delay [] presses s h = h
run-Held delay (e ∷ es) presses s h =
    run-Held delay es presses (happen delay e s) (happen-Held delay e presses s h)

-- A waiter that waits with nothing pending and is to stop goes on waiting as long as no press is
-- accepted, however often it runs; once one has been, it has returned after two more steps of its own.
pub stop_needs_press :
    (delay : ℕ) (es : List Event) (s : System)
    → s.stopped ≡ true
    → s.waiter ≡ waiting
    → s.driver.done ≡ 0
    → let s' = run delay es s in
      (s'.accepted ≡ s.accepted) × (s'.waiter ≡ waiting)
      ⊎ (s.accepted < s'.accepted) × ((run delay (waiter_steps 2) s').waiter ≡ ended)
stop_needs_press delay es s h w e =
    let presses = s.accepted in
    let s' = run delay es s in
    let held = run-Held delay es presses s (h, inl (refl, w, e)) in
    elim held.1 [
      | inl still ↦ inl (still.0, still.1)
      | inr soon ↦
          let ends =
            returns_soon delay s'.accepted s'.stopped s'.waiter s'.driver s'.wakes held.0 in
          inr (soon.0, ends soon.1)
    ]
