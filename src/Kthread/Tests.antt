-- ===== src/Kthread/Tests.antt =====
-- Runs of 17_kernel_threads/my_kthread.c at concrete inputs.
use linux_driver_development.Base.{[], false, refl, some, true, ◌∷◌, ◌≡◌}
use linux_driver_development.Kthread.{thread_function}

three_rounds : thread_function 2 (false ∷ false ∷ false ∷ true ∷ []) ≡ some (0 ∷ 1 ∷ 2 ∷ [], 6)
unfolding thread_function
three_rounds = refl
