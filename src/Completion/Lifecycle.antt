-- ===== src/Completion/Lifecycle.antt =====
-- Loading and unloading the module of 19_kernel_synchronization/03_completion/my_completion.c.
use linux_driver_development.Base.{
  [], arith, if◌then◌else◌, nonzero, pos, some, suc, true, ℕ, ◌||◌, ◌∷◌, ◌≡◌, ◌⊎◌,
}
use linux_driver_development.Kernel.{
  Os, Resource, err_ptr, irq_line, is_err, ledger, thread_1, thread_2, valid,
}
use linux_driver_development.Completion.{external_gpio_irq_setup, my_init}

-- Where kthread_run returns a task or an error pointer with a code other than 0, `my_init` returns 0
-- and holds both threads and the interrupt line; or it returns a status other than 0 and holds
-- nothing, or, if it was the second thread that could not be started, the first thread, which keeps
-- running.
pub completion_init_outcome :
    (os : Os)
    → ((r : Resource)
        → (os.kthread_run r ≡ valid) ⊎ ((e : ℕ) × (os.kthread_run r ≡ err_ptr (suc e))))
    → ((my_init os).0 ≡ pos 0)
        × (ledger (my_init os).1 ≡ some (thread_2 ∷ thread_1 ∷ irq_line ∷ []))
      ⊎ (nonzero (my_init os).0 ≡ true)
        × (ledger (my_init os).1
            ≡ some (
                if nonzero (external_gpio_irq_setup os []).0 || is_err (os.kthread_run thread_1)
                then []
                else thread_1 ∷ []))
unfolding my_init ledger
completion_init_outcome os h = ground (arith, h thread_1, h thread_2)
