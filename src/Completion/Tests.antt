-- ===== src/Completion/Tests.antt =====
-- Runs of 19_kernel_synchronization/03_completion/my_completion.c at concrete inputs. With
-- HZ = 250 the debounce delay of 20 ms is 5 jiffies.
use linux_driver_development.Base.{List, [], arith, false, length, refl, ℕ, ◌%◌, ◌+◌, ◌∷◌, ◌≡◌}
use linux_driver_development.Completion.{Driver, asleep, int_mod, isr}
use linux_driver_development.Completion.Presses.{Spaced, run, run-Spaced}
use linux_driver_development.Completion.Waiters.{
  Event, all_happen, first_runs, happen, interrupt, loaded, presses_accounted, second_runs,
}

abbrev quiet : Driver
quiet = record { done = 0; press_count = 0; last_jiffies = 100 }

abbrev presses : List ℕ
presses = 103 ∷ 107 ∷ 109 ∷ 120 ∷ []

bounce_dropped : (run 5 presses quiet).1 ≡ 107 ∷ 120 ∷ []
unfolding run isr
bounce_dropped = refl

run-Spaced_example :
    let (end, times) = run 5 presses quiet in
    Spaced 5 100 times
    × (end.press_count ≡ (0 + length times) % int_mod)
    × (end.done ≡ 0 + length times)
run-Spaced_example = run-Spaced 5 presses quiet (omega arith) (omega arith)

-- The first waiter is woken by one press; a second press comes before its reinit_completion.
abbrev two_presses : List Event
two_presses =
    first_runs false false
    ∷ interrupt 103
    ∷ first_runs false false
    ∷ interrupt 110
    ∷ first_runs false false
    ∷ second_runs false false
    ∷ second_runs false false
    ∷ []

presses_accounted_example :
    let s = all_happen 5 two_presses loaded in
    (s.wakes + s.driver.done + s.dropped ≡ s.accepted)
    × (s.driver.press_count ≡ s.accepted % int_mod)
presses_accounted_example = presses_accounted 5 two_presses

-- The second press is lost: the second waiter sleeps on.
second_lost :
    let s = all_happen 5 two_presses loaded in
    (s.accepted ≡ 2) × (s.wakes ≡ 1) × (s.dropped ≡ 1) × (s.second ≡ asleep)
unfolding all_happen happen isr
second_lost = (refl, refl, refl, refl)
