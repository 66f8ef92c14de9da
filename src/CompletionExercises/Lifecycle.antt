-- ===== src/CompletionExercises/Lifecycle.antt =====
-- Loading and unloading the modules of the completion exercises.
use linux_driver_development.Base.{[], arith, pos, some, suc, ℕ, ◌∷◌, ◌≡◌, ◌⊎◌}
use linux_driver_development.Kernel.{Os, Settles, err_ptr, irq_line, ledger, thread_1, valid}
use linux_driver_development.CompletionExercises.{my_exit, my_init}

-- Where kthread_run returns a task or an error pointer with a code other than 0, `my_init` returns 0 and
-- holds the thread and the interrupt line, which `my_exit` gives back, or it returns a status other
-- than 0 and holds nothing: on no path does a thread stay behind.
pub exercise_lifecycle-Settles :
    (os : Os)
    → (os.kthread_run thread_1 ≡ valid) ⊎ ((e : ℕ) × (os.kthread_run thread_1 ≡ err_ptr (suc e)))
    → Settles (thread_1 ∷ irq_line ∷ []) (my_init os)
      × (((my_init os).0 ≡ pos 0) → ledger (my_exit (my_init os).1) ≡ some [])
unfolding my_init my_exit ledger
exercise_lifecycle-Settles os h = (ground (arith, h), λ e. ground (arith, h, e))
