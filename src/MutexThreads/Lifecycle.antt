-- ===== src/MutexThreads/Lifecycle.antt =====
-- Loading and unloading the module of 19_kernel_synchronization/01_mutex/my_mutex.c.
use linux_driver_development.Base.{[], arith, pos, some, ◌∷◌, ◌≡◌}
use linux_driver_development.Kernel.{Os, Settles, ledger, thread_1, thread_2}
use linux_driver_development.MutexThreads.{my_exit, my_init}
use linux_driver_development.Threads.{Answers}

-- `my_init` returns 0 and has started both threads, which `my_exit` stops; or it returns a status
-- other than 0 and no thread is left running.
pub mutex-Settles :
    (os : Os)
    → Answers os
    → Settles (thread_2 ∷ thread_1 ∷ []) (my_init os)
      × ((my_init os).0 ≡ pos 0 → ledger (my_exit (my_init os).1) ≡ some [])
unfolding my_init my_exit ledger
mutex-Settles os h = ground (arith, h thread_1, h thread_2)
