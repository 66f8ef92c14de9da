-- ===== src/MutexThreads.antt =====
-- 19_kernel_synchronization/01_mutex/my_mutex.c: two threads write to one buffer under a mutex.
pub mod Exclusion
pub mod Lifecycle
mod Tests
use linux_driver_development.Base.{
  Bool, List, Option, [], codes, if◌then◌else◌, none, some, take, ℕ, ℤ, ◌++◌, ◌∷◌,
}
use linux_driver_development.Kernel.{Log, Os}
use linux_driver_development.Threads.{start_threads, stop_threads}

pub data Thread : Type 0 where
  high low : Thread

-- The field `text` of `high_t_pdata` and `low_t_pdata`.
abbrev pub text : Thread → List ℕ
text high = codes "HIGH_HIGH_HIGH"
text low = codes "LOW_LOW_LOW"

-- Where a thread stands in `thread_func`: before the test of the loop, before mutex_lock, before
-- snprintf, in msleep, before mutex_unlock, or returned.
pub data Pc : Type 0 where
  testing locking writing sleeping unlocking returned : Pc

-- The mutex's owner, the shared buffer, and what the "Exit" messages have logged, newest first.
pub record System : Type 0 where
  pub high_pc : Pc
  pub low_pc : Pc
  pub owner : Option Thread
  pub shared_buffer : List ℕ
  pub logged : List (Thread × List ℕ)

abbrev pub pc : Thread → System → Pc
pc high s = s.high_pc
pc low s = s.low_pc

abbrev pub go_to : Thread → Pc → System → System
go_to high p s = record s { high_pc = p }
go_to low p s = record s { low_pc = p }

-- The text that snprintf makes of "Active: %s", as a C string: up to 63 bytes.
abbrev pub active : Thread → List ℕ
active t = take 63 (codes "Active: " ++ text t)

-- One step of a thread; `stop` is what kthread_should_stop returns. A thread that finds the mutex
-- taken waits.
act : Thread → Bool → Pc → System → System
act t stop testing s = go_to t (if stop then returned else locking) s
act t stop locking s = elim s.owner [
  | none ↦ go_to t writing (record s { owner = some t })
  | some o ↦ s
]
act t stop writing s = go_to t sleeping (record s { shared_buffer = active t })
act t stop sleeping s = go_to t unlocking (record s { logged = (t, s.shared_buffer) ∷ s.logged })
act t stop unlocking s = go_to t testing (record s { owner = none })
act t stop returned s = s

pub step : Thread → Bool → System → System
unfolding act
step t stop s = act t stop (pc t s) s

-- The threads run in any order: a schedule says which takes the next step and whether it is stopped.
pub run : List (Thread × Bool) → System → System
run [] s = s
run ((t, stop) ∷ rest) s = run rest (step t stop s)

abbrev pub loaded : System
loaded = record {
  high_pc = testing;
  low_pc = testing;
  owner = none;
  shared_buffer = [];
  logged = [];
}

unfoldable pub my_init : Os → ℤ × Log
unfolding start_threads
my_init os = start_threads os []

unfoldable pub my_exit : Log → Log
unfolding stop_threads
my_exit log = stop_threads log
