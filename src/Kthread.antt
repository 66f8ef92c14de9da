-- ===== src/Kthread.antt =====
-- 17_kernel_threads/my_kthread.c: two threads count their rounds until they are stopped.
pub mod Rounds
pub mod Lifecycle
mod Tests
use linux_driver_development.Base.{
  Bool, List, Option, [], false, none, some, true, ℕ, ℤ, ◌%◌, ◌+◌, ◌^◌, ◌∷◌,
}
use linux_driver_development.Kernel.{Log, Os, Resource, thread_2}
use linux_driver_development.Threads.{start_threads, stop_threads}

-- The argument of each thread: `t1` and `t2`.
abbrev pub thread_id : Resource → ℕ
thread_id thread_2 = 2
thread_id r = 1

-- `thread_function`: the list says what kthread_should_stop returns, one test after another. The
-- result is the iterations logged, in order, and the seconds slept; `none` means that the tests ran
-- out before one returned true.
pub loop : ℕ → List Bool → ℕ → ℕ → Option (List ℕ × ℕ)
loop id [] counter slept = none
loop id (true ∷ tests) counter slept = some ([], slept)
loop id (false ∷ tests) counter slept = elim (loop id tests ((counter + 1) % 2 ^ 64) (slept + id)) [
  | none ↦ none
  | some (logged, total) ↦ some (counter ∷ logged, total)
]

pub thread_function : ℕ → List Bool → Option (List ℕ × ℕ)
unfolding loop
thread_function id tests = loop id tests 0 0

unfoldable pub my_init : Os → ℤ × Log
unfolding start_threads
my_init os = start_threads os []

unfoldable pub my_exit : Log → Log
unfolding stop_threads
my_exit log = stop_threads log
