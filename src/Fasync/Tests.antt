-- ===== src/Fasync/Tests.antt =====
-- Runs of 18_wait_queue_poll_fasync/04_fasync/my_fasync.c at concrete inputs.
use linux_driver_development.Fasync.Main.{go, meanwhile, start, unregistered_silent, works}
use linux_driver_development.Fasync.Client.{
  Event, Process, handler_misses_nothing, happen, press_count, pressed, process_runs, run, set_up,
  sigio_handler,
}
use linux_driver_development.Base.{
  Bool, List, [], arith, false, if◌then◌else◌, neg, pos, refl, some, true, ℕ, ℤ, ◌==◌, ◌∷◌, ◌≡◌,
  ◌≤◌,
}
use linux_driver_development.Fasync.{Driver, isr, my_read}
use linux_driver_development.Fasync.Notification.{TakesOff}

-- A queue without repetitions, as fasync_helper keeps it.
abbrev without : ℕ → List ℕ → List ℕ
without f [] = []
without f (x ∷ xs) = if x == f then without f xs else x ∷ without f xs

abbrev helper : ℕ → Bool → List ℕ → ℤ × List ℕ
helper f true queue = (pos 1, f ∷ without f queue)
helper f false queue = (pos 1, without f queue)

helper-TakesOff : TakesOff helper
helper-TakesOff file other [] = ground arith
helper-TakesOff file other (x ∷ xs) = ground (arith, helper-TakesOff file other xs)

abbrev two_files : Driver
two_files = record { async_queue = 4 ∷ 7 ∷ []; data_available = false; signalled = [] }

abbrev pressed_twice : List Event
pressed_twice = pressed ∷ pressed ∷ process_runs false ∷ process_runs false ∷ pressed ∷ []

-- Two presses before the program runs make one message.
one_message : (run 4 pressed_twice (set_up 4)).messages ≡ 1
unfolding run happen sigio_handler my_read isr
one_message = refl

handler_misses_nothing_example :
    let p = run 4 pressed_twice (set_up 4) in
    (p.pending ≡ p.driver.data_available)
    × ((happen 4 (process_runs true) p).driver.data_available ≡ false)
    × (p.messages ≤ press_count pressed_twice)
handler_misses_nothing_example = handler_misses_nothing 4 pressed_twice true

-- fasync_helper without memory.
abbrev no_memory : ℕ → Bool → List ℕ → ℤ × List ℕ
no_memory file on queue = (neg (pos 12), queue)

unregistered_silent_example :
    (p : Process) × (start no_memory true 5
        (record { async_queue = []; data_available = false; signalled = [] })
      ≡ some p)
    × ((go 5
          (works ∷ meanwhile pressed ∷ works ∷ [])
          (record { process = p; counter = 0 })).process.messages
        ≡ 0)
    × ((go 5 (works ∷ meanwhile pressed ∷ works ∷ []) (record { process = p; counter = 0 })).counter
        ≡ 2)
unregistered_silent_example =
    unregistered_silent no_memory 5
      (record { async_queue = []; data_available = false; signalled = [] })
      (works ∷ meanwhile pressed ∷ works ∷ []) refl
