-- ===== src/CompletionExercises/Waiting.antt =====
-- The waiter of my_completion_ex1.c and my_completion_ex2.c among interrupts.
use linux_driver_development.Base.{
  Bool, List, [], ap, arith, false, if◌then◌else◌, refl, suc, true, zero, ℕ, ◌%◌, ◌*◌, ◌++◌, ◌+◌,
  ◌-◌, ◌∙◌, ◌∷◌, ◌≡◌, ◌≢◌, ◌≤◌,
}
use linux_driver_development.CompletionExercises.{Thread, ended, looping, thread_step, waiting}
use linux_driver_development.Completion.{Driver, int_mod, isr}

-- What happens: an interrupt at a time, a step of the waiter, or kthread_stop.
pub data Event : Type 0 where
  interrupt : ℕ → Event
  waiter_runs : Event
  kthread_stop : Event

-- The driver, the waiter, whether it is to stop, how many interrupts have been accepted, and how often
-- its wait has returned.
pub record System : Type 0 where
  pub driver : Driver
  pub waiter : Thread
  pub stopped : Bool
  pub accepted : ℕ
  pub wakes : ℕ

unfoldable pub happen : ℕ → Event → System → System
happen delay (interrupt t) s =
    let (d, ok) = isr delay t s.driver in
    record s { driver = d; accepted = (if ok then s.accepted + 1 else s.accepted) }
happen delay waiter_runs s =
    let (w, d, woke) = thread_step s.stopped s.waiter s.driver in
    record s { driver = d; waiter = w; wakes = (if woke then s.wakes + 1 else s.wakes) }
happen delay kthread_stop s = record s { stopped = true }

unfoldable pub run : ℕ → List Event → System → System
run delay [] s = s
run delay (e ∷ es) s = run delay es (happen delay e s)

abbrev pub loaded : System
loaded = record {
  driver = record { done = 0; press_count = 0; last_jiffies = 0 };
  waiter = looping;
  stopped = false;
  accepted = 0;
  wakes = 0;
}

-- Every accepted press has ended a wait or is pending, and the press counter, an int, has counted it.
abbrev pub Counted : System → Type 0
Counted s = (s.wakes + s.driver.done ≡ s.accepted) × (s.driver.press_count ≡ s.accepted % int_mod)

-- The waiter has not returned, and nobody has told it to.
abbrev pub Live : System → Type 0
Live s = (s.stopped ≡ false) × (s.waiter ≢ ended)

step-Counted :
    (stopped : Bool) (w : Thread) (d : Driver) (wakes : ℕ)
    → let (w', d', woke) = thread_step stopped w d in
      ((if woke then wakes + 1 else wakes) + d'.done ≡ wakes + d.done)
      × (d'.press_count ≡ d.press_count)
unfolding thread_step
step-Counted stopped looping d wakes = ground arith
step-Counted stopped waiting d wakes = ground arith
step-Counted stopped ended d wakes = (refl, refl)

happen-Counted : (delay : ℕ) (e : Event) (s : System) → Counted s → Counted (happen delay e s)
unfolding happen isr
happen-Counted delay (interrupt t) s h = ground arith
happen-Counted delay waiter_runs s h =
    let step = step-Counted s.stopped s.waiter s.driver s.wakes in (step.0 ∙ h.0, step.1 ∙ h.1)
happen-Counted delay kthread_stop s h = h

run-Counted : (delay : ℕ) (es : List Event) (s : System) → Counted s → Counted (run delay es s)
unfolding run
run-Counted delay [] s h = h
run-Counted delay (e ∷ es) s h =
    run-Counted delay es (happen delay e s) (happen-Counted delay e s h)

-- No event is a stop request.
abbrev pub Unstopped : List Event → Type 0
Unstopped [] = Unit
Unstopped (kthread_stop ∷ es) = ⊥
Unstopped (waiter_runs ∷ es) = Unstopped es
Unstopped (interrupt t ∷ es) = Unstopped es

step-Live : (w : Thread) (d : Driver) → w ≢ ended → (thread_step false w d).0 ≢ ended
unfolding thread_step
step-Live looping d h = cc
step-Live waiting d h = ground arith
step-Live ended d h = h

run-Live :
    (delay : ℕ) (es : List Event) (s : System) → Unstopped es → Live s → Live (run delay es s)
unfolding run happen
run-Live delay [] s u h = h
run-Live delay (interrupt t ∷ es) s u h = run-Live delay es (happen delay (interrupt t) s) u h
run-Live delay (waiter_runs ∷ es) s u h =
    run-Live delay es (happen delay waiter_runs s) u (h.0, rw h.0 (step-Live s.waiter s.driver h.1))
run-Live delay (kthread_stop ∷ es) s u h = absurd u

-- k steps of the waiter with nothing between them.
unfoldable pub waiter_steps : ℕ → List Event
waiter_steps zero = []
waiter_steps (suc k) = waiter_runs ∷ waiter_steps k

-- How many steps the waiter needs until it waits with nothing pending.
abbrev pub steps_left : Thread → ℕ → ℕ
steps_left looping done = 2 * done + 1
steps_left waiting done = 2 * done
steps_left ended done = 0

-- The waiter waits, nothing is pending of the presses, and no more have been accepted.
abbrev Drained : ℕ → System → Type 0
Drained accepted s = (s.waiter ≡ waiting) × (s.driver.done ≡ 0) × (s.accepted ≡ accepted)

drained :
    (delay k accepted : ℕ) (stopped : Bool) (w : Thread) (d : Driver) (wakes : ℕ)
    → stopped ≡ false
    → w ≢ ended
    → steps_left w d.done ≤ k
    → Drained accepted (
        run delay (waiter_steps k) (record {
          driver = d;
          waiter = w;
          stopped = stopped;
          accepted = accepted;
          wakes = wakes;
        }))
unfolding run happen thread_step waiter_steps
drained delay zero accepted stopped looping d wakes l n h = absurd (omega arith)
drained delay zero accepted stopped waiting d wakes l n h = (refl, omega arith, refl)
drained delay k accepted stopped ended d wakes l n h = absurd (n refl)
drained delay (suc k) accepted stopped looping d wakes l n h =
    ground (arith, l, drained delay k accepted stopped waiting d wakes l (cc))
drained delay (suc k) accepted stopped waiting d wakes l n h =
    let d' : Driver = record d { done = d.done - 1 } in
    let more = drained delay k accepted stopped looping d' (wakes + 1) l (cc) in
    let none_left = drained delay k accepted stopped waiting d wakes l n in
    ground (arith, more, none_left)

run-append :
    (delay : ℕ) (es fs : List Event) (s : System)
    → run delay (es ++ fs) s ≡ run delay fs (run delay es s)
unfolding run
run-append delay [] fs s = refl
run-append delay (e ∷ es) fs s = run-append delay es fs (happen delay e s)

-- Whatever interrupts come and whenever the waiter runs among them, as long as nobody stops it: when
-- it has then run as many steps as it needs with no interrupt between, it waits with nothing pending, and
-- its wait has returned exactly once for every accepted press, which the press counter has counted
-- modulo 2 ^ 32. No press is lost.
pub every_press_wakes :
    (delay : ℕ) (es : List Event)
    → Unstopped es
    → let s = run delay es loaded in
      let end = run delay (es ++ waiter_steps (steps_left s.waiter s.driver.done)) loaded in
      (end.waiter ≡ waiting)
      × (end.driver.done ≡ 0)
      × (end.accepted ≡ s.accepted)
      × (end.wakes ≡ s.accepted)
      × (end.driver.press_count ≡ s.accepted % int_mod)
every_press_wakes delay es u =
    let s = run delay es loaded in
    let k = steps_left s.waiter s.driver.done in
    let more = waiter_steps k in
    let live = run-Live delay es loaded u (refl, cc) in
    let all =
      drained delay k s.accepted s.stopped s.waiter s.driver s.wakes live.0 live.1 (omega arith) in
    let counted = run-Counted delay (es ++ more) loaded (refl, refl) in
    let append = run-append delay es more loaded in
    let all' : Drained s.accepted (run delay (es ++ more) loaded) = rw append all in
    (
      all'.0,
      all'.1,
      all'.2,
      omega (arith, counted.0, all'.1, all'.2),
      counted.1 ∙ ap (λ n. n % int_mod) all'.2,
    )
