-- ===== src/Threads.antt =====
-- The part of `my_init` and `my_exit` that 17_kernel_threads/my_kthread.c and
-- 19_kernel_synchronization/01_mutex/my_mutex.c share: two kernel threads are started, and stopped
-- with kthread_stop.
use linux_driver_development.Base.{if◌then◌else◌, pos, suc, ℕ, ℤ, ◌∷◌, ◌≡◌, ◌⊎◌}
use linux_driver_development.Kernel.{
  Log, Os, Resource, acquire, err_ptr, is_err, ptr_err, release, thread_1, thread_2, valid,
}

-- Starts both threads; if the second cannot be started, the first is stopped.
unfoldable pub start_threads : Os → Log → ℤ × Log
start_threads os log =
    if is_err (os.kthread_run thread_1)
    then (ptr_err (os.kthread_run thread_1), log)
    else if is_err (os.kthread_run thread_2)
    then (ptr_err (os.kthread_run thread_2), release thread_1 ∷ acquire thread_1 ∷ log)
    else (pos 0, acquire thread_2 ∷ acquire thread_1 ∷ log)

unfoldable pub stop_threads : Log → Log
stop_threads log = release thread_2 ∷ release thread_1 ∷ log

-- kthread_run returns a task or an error pointer with a code other than 0.
abbrev pub Answers : Os → Type 0
Answers os =
    (r : Resource) → (os.kthread_run r ≡ valid) ⊎ ((e : ℕ) × (os.kthread_run r ≡ err_ptr (suc e)))
