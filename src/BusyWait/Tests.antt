-- ===== src/BusyWait/Tests.antt =====
-- Runs of 18_wait_queue_poll_fasync/01_busy_wait/busy_wait.c at concrete inputs.
use linux_driver_development.Base.{
  Bool, arith, false, leb, none, pos, refl, some, true, ℕ, ◌≡◌, ◌≤◌,
}
use linux_driver_development.BusyWait.{ReadCall, my_read, spin}
use linux_driver_development.BusyWait.Spin.{my_read_returns}

-- The interrupt comes before look 3.
abbrev third : ℕ → Bool
third j = leb 3 j

third_set : (j : ℕ) → 3 ≤ j → third j ≡ true
third_set j h = ground arith

abbrev waiter : ReadCall
waiter = record { nonblock = false; copy_fails = false }

three_looks : (spin 10 third 1 ≡ some 3) × (spin 2 third 1 ≡ none)
unfolding spin
three_looks = (refl, refl)

my_read_returns_example : my_read waiter 5 third ≡ some (pos 19, false)
my_read_returns_example = my_read_returns waiter 5 3 third third_set (omega arith)
