-- ===== src/SharedCdev/Tests.antt =====
-- Runs of 19_kernel_synchronization/01_mutex/test/my_cdev.c at a concrete schedule.
-- Process 0 writes "hi", and process 1 reads at the same time. Both come to the mutex, and process 1
-- waits until the write has ended.
use linux_driver_development.Base.{List, [], arith, codes, none, refl, some, ℕ, ◌∷◌, ◌≡◌}
use linux_driver_development.Kernel.{smooth, strlen}
use linux_driver_development.SharedCdev.{
  Op, act, enter, loaded, read, read_done, run, start_read, start_write, step, write, write_done,
}
use linux_driver_development.SharedCdev.Atomic.{Sequential, after}
use linux_driver_development.SharedCdev.Schedule.{AllBounded, run-Sequential}
use linux_driver_development.FileOps.{read_size, write_size}

abbrev hi : Op
hi = write smooth (codes "hi")

abbrev look : Op
look = read smooth 10

abbrev together : List (ℕ × Op)
together =
    (0, hi)
    ∷ (1, look)
    ∷ (0, hi)
    ∷ (1, look)
    ∷ (0, hi)
    ∷ (1, look)
    ∷ (0, hi)
    ∷ (0, hi)
    ∷ (1, look)
    ∷ (0, hi)
    ∷ (0, hi)
    ∷ (1, look)
    ∷ (1, look)
    ∷ (1, look)
    ∷ (1, look)
    ∷ (1, look)
    ∷ []

read_behind_write :
    (run together loaded).ended
    ≡ record { start = 0; op = look; answer = some (read_done 0 2 (codes "hi")) }
      ∷ record { start = 0; op = hi; answer = some (write_done 0 2) }
      ∷ []
unfolding run step act enter start_read start_write read_size write_size strlen
read_behind_write = refl

together_bounded : AllBounded together
together_bounded = ground arith

run-Sequential_example :
    let s = run together loaded in
    Sequential s.ended × (s.owner ≡ none → s.dev_buffer ≡ after s.ended)
run-Sequential_example = run-Sequential together together_bounded
