-- ===== src/CompletionExercises/Tests.antt =====
-- Runs of the exercises of 19_kernel_synchronization/03_completion at concrete inputs, with a debounce
-- delay of 5 jiffies.
use linux_driver_development.Base.{List, [], arith, false, refl, true, ◌%◌, ◌++◌, ◌∷◌, ◌≡◌}
use linux_driver_development.CompletionExercises.{thread_step, timed_ended, timed_looping, waiting}
use linux_driver_development.CompletionExercises.Timeout.{
  Running, stopped_returns_in_time, timed_run,
}
use linux_driver_development.CompletionExercises.Waiting.{
  Event, System, every_press_wakes, happen, interrupt, loaded, run, steps_left, waiter_runs,
  waiter_steps,
}
use linux_driver_development.Completion.{int_mod, isr}

abbrev two_presses : List Event
two_presses = waiter_runs ∷ interrupt 103 ∷ interrupt 105 ∷ interrupt 110 ∷ waiter_runs ∷ []

-- One interrupt bounces; of the two presses one is pending when the waiter has woken once.
two_presses_lem :
    ((run 5 two_presses loaded).driver.done ≡ 1) × ((run 5 two_presses loaded).wakes ≡ 1)
unfolding run happen isr thread_step
two_presses_lem = (refl, refl)

every_press_wakes_example :
    let s = run 5 two_presses loaded in
    let end = run 5 (two_presses ++ waiter_steps (steps_left s.waiter s.driver.done)) loaded in
    (end.waiter ≡ waiting)
    × (end.driver.done ≡ 0)
    × (end.accepted ≡ s.accepted)
    × (end.wakes ≡ s.accepted)
    × (end.driver.press_count ≡ s.accepted % int_mod)
every_press_wakes_example = every_press_wakes 5 two_presses tt

-- Told to stop while it waits.
abbrev stuck : System
stuck = record loaded { waiter = waiting; stopped = true }

still_waiting : run 5 (waiter_runs ∷ interrupt 3 ∷ waiter_runs ∷ []) stuck ≡ stuck
unfolding run happen isr thread_step
still_waiting = refl

-- A timeout of 3 jiffies, in the second of which kthread_stop comes.
stopped_returns_in_time_example :
    let (w, d) = timed_run 5 3 (λ d. d) false ([] ∷ [] ∷ []) timed_looping loaded.driver in
    Running 3 w × ((timed_run 5 3 (λ d. d) true ([] ∷ [] ∷ [] ∷ [] ∷ []) w d).0 ≡ timed_ended)
stopped_returns_in_time_example =
    stopped_returns_in_time 5 3 (λ d. d) ([] ∷ [] ∷ []) ([] ∷ [] ∷ [] ∷ [] ∷ []) loaded.driver
      (omega arith)
