-- ===== src/CompletionExercises/Timeout.antt =====
-- The waiter of my_completion_ex3.c: how long kthread_stop waits for it.
use linux_driver_development.Base.{
  Bool, List, [], arith, false, length, refl, true, ℕ, ◌+◌, ◌-◌, ◌∷◌, ◌≡◌, ◌≤◌,
}
use linux_driver_development.CompletionExercises.{
  TimedThread, after_wait, timed_ended, timed_looping, timed_step, timed_waiting,
}
use linux_driver_development.Completion.{Driver}
use linux_driver_development.Completion.Presses.{run}

-- What happens in a jiffy: interrupts come at the given times, and the waiter takes a step.
unfoldable pub jiffy :
    ℕ → ℕ → (Driver → Driver) → Bool → List ℕ → TimedThread → Driver → TimedThread × Driver
jiffy delay timeout reinit stopped times w d =
    timed_step timeout reinit stopped w ((run delay times d).0)

-- A jiffy for each of the lists, with kthread_stop called before all of them or not yet.
unfoldable pub timed_run :
    ℕ → ℕ → (Driver → Driver) → Bool → List (List ℕ) → TimedThread → Driver → TimedThread × Driver
unfolding jiffy
timed_run delay timeout reinit stopped [] w d = (w, d)
timed_run delay timeout reinit stopped (times ∷ rest) w d =
    let (w', d') = jiffy delay timeout reinit stopped times w d in
    timed_run delay timeout reinit stopped rest w' d'

-- How many steps a stopped waiter has before it at most.
abbrev pub steps_before : TimedThread → ℕ
steps_before timed_looping = 1
steps_before (timed_waiting left) = left + 1
steps_before timed_ended = 0

one_step_less :
    (delay timeout : ℕ) (reinit : Driver → Driver) (times : List ℕ) (w : TimedThread) (d : Driver)
    → steps_before (jiffy delay timeout reinit true times w d).0 ≤ steps_before w - 1
unfolding jiffy timed_step
one_step_less delay timeout reinit times timed_looping d = omega arith
one_step_less delay timeout reinit times (timed_waiting left) d = ground arith
one_step_less delay timeout reinit times timed_ended d = omega arith

-- A stopped waiter returns when the rest of its wait has passed.
stopped_ends :
    (delay timeout : ℕ) (reinit : Driver → Driver) (jiffies : List (List ℕ)) (w : TimedThread)
    (d : Driver)
    → steps_before w ≤ length jiffies
    → (timed_run delay timeout reinit true jiffies w d).0 ≡ timed_ended
unfolding timed_run
stopped_ends delay timeout reinit [] timed_looping d h = absurd (omega arith)
stopped_ends delay timeout reinit [] (timed_waiting left) d h = absurd (omega arith)
stopped_ends delay timeout reinit [] timed_ended d h = refl
stopped_ends delay timeout reinit (times ∷ rest) w d h =
    let (w', d') = jiffy delay timeout reinit true times w d in
    stopped_ends delay timeout reinit rest w' d'
      (omega (arith, one_step_less delay timeout reinit times w d))

-- The waiter has not returned, and waits for no longer than its timeout.
abbrev pub Running : ℕ → TimedThread → Type 0
Running timeout timed_looping = Unit
Running timeout (timed_waiting left) = left ≤ timeout
Running timeout timed_ended = ⊥

jiffy-Running :
    (delay timeout : ℕ) (reinit : Driver → Driver) (times : List ℕ) (w : TimedThread) (d : Driver)
    → Running timeout w
    → Running timeout (jiffy delay timeout reinit false times w d).0
unfolding jiffy timed_step after_wait
jiffy-Running delay timeout reinit times timed_looping d h = omega arith
jiffy-Running delay timeout reinit times (timed_waiting left) d h = ground arith
jiffy-Running delay timeout reinit times timed_ended d h = h

timed_run-Running :
    (delay timeout : ℕ) (reinit : Driver → Driver) (jiffies : List (List ℕ)) (w : TimedThread)
    (d : Driver)
    → Running timeout w
    → Running timeout (timed_run delay timeout reinit false jiffies w d).0
unfolding timed_run
timed_run-Running delay timeout reinit [] w d h = h
timed_run-Running delay timeout reinit (times ∷ rest) w d h =
    let (w', d') = jiffy delay timeout reinit false times w d in
    timed_run-Running delay timeout reinit rest w' d'
      (jiffy-Running delay timeout reinit times w d h)

Running-steps_before :
    (timeout : ℕ) (w : TimedThread) → Running timeout w → steps_before w ≤ timeout + 1
Running-steps_before timeout timed_looping h = omega arith
Running-steps_before timeout (timed_waiting left) h = omega arith
Running-steps_before timeout timed_ended h = absurd h

-- From the start of the waiter on, with any interrupts in any jiffies: as long as nobody stops it, it has
-- not returned and never has longer to wait than its timeout; and when kthread_stop comes, it has
-- returned after as many jiffies as the timeout has and one more, whether further interrupts come or
-- not. So kthread_stop waits for one timeout and a jiffy at most, and needs no press.
pub stopped_returns_in_time :
    (delay timeout : ℕ) (reinit : Driver → Driver) (before after : List (List ℕ)) (d : Driver)
    → timeout + 1 ≤ length after
    → let (w, d') = timed_run delay timeout reinit false before timed_looping d in
      Running timeout w × ((timed_run delay timeout reinit true after w d').0 ≡ timed_ended)
stopped_returns_in_time delay timeout reinit before after d h =
    let (w, d') = timed_run delay timeout reinit false before timed_looping d in
    let running = timed_run-Running delay timeout reinit before timed_looping d tt in
    (
      running,
      stopped_ends delay timeout reinit after w d'
          (omega (arith, h, Running-steps_before timeout w running)),
    )
