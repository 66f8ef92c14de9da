-- ===== src/Kthread/Rounds.antt =====
-- The rounds of a thread of 17_kernel_threads/my_kthread.c.
use linux_driver_development.Base.{
  Bool, List, [], arith, false, replicate, some, suc, true, zero, ℕ, ◌%◌, ◌*◌, ◌++◌, ◌+◌, ◌<◌, ◌^◌,
  ◌∙◌, ◌∷◌, ◌≡◌,
}
use linux_driver_development.Kthread.{loop, thread_function}

abbrev pub count_from : ℕ → ℕ → List ℕ
count_from start zero = []
count_from start (suc n) = start ∷ count_from (suc start) n

loop-eq :
    (id k counter slept : ℕ) (rest : List Bool)
    → counter + k < 2 ^ 64
    → loop id (replicate k false ++ (true ∷ rest)) counter slept
      ≡ some (count_from counter k, slept + k * id)
unfolding loop
loop-eq id zero counter slept rest h = ground arith
loop-eq id (suc k) counter slept rest h =
    let wrap : (counter + 1) % 2 ^ 64 ≡ suc counter = omega arith in
    rw wrap (rw (loop-eq id k (suc counter) (slept + id) rest (omega arith)) (grind arith))

-- A thread that is stopped at its test number k + 1, with k below 2 ^ 64, returns, having logged the
-- iterations 0 to k - 1 in order and slept `id` seconds in each, whatever the tests after it would be.
pub thread_function_rounds :
    (id k : ℕ) (rest : List Bool)
    → k < 2 ^ 64
    → thread_function id (replicate k false ++ (true ∷ rest)) ≡ some (count_from 0 k, k * id)
unfolding thread_function
thread_function_rounds id k rest h = loop-eq id k 0 0 rest (omega arith) ∙ ground arith
