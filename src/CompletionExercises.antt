-- ===== src/CompletionExercises.antt =====
-- The exercises of 19_kernel_synchronization/03_completion: my_completion_ex1.c and my_completion_ex2.c,
-- which are the same code but for two macros that are not used, and my_completion_ex3.c. All have one
-- thread that waits; `isr` and `external_gpio_irq_setup` are the code of my_completion.c again, and are
-- those of Completion here.
pub mod Waiting
pub mod Stopping
pub mod Timeout
pub mod Lifecycle
mod Tests
use linux_driver_development.Base.{
  Bool, [], false, if◌then◌else◌, ltb, nonzero, pos, true, ℕ, ℤ, ◌-◌, ◌==◌, ◌∷◌,
}
use linux_driver_development.Kernel.{Log, Os, acquire, irq_line, is_err, ptr_err, release, thread_1}
use linux_driver_development.Completion.{Driver, external_gpio_irq_setup}

-- A waiter: about to test kthread_should_stop, in its wait, or returned.
pub data Thread : Type 0 where
  looping waiting ended : Thread

-- One step of `waiter_thread_fn` of my_completion_ex1.c: the waiter, the driver, and whether the wait
-- has returned. A stop request does not end wait_for_completion.
unfoldable pub thread_step : Bool → Thread → Driver → Thread × Driver × Bool
thread_step stopped looping d = if stopped then (ended, d, false) else (waiting, d, false)
thread_step stopped waiting d =
    if ltb 0 d.done then (looping, record d { done = d.done - 1 }, true) else (waiting, d, false)
thread_step stopped ended d = (ended, d, false)

-- The waiter of my_completion_ex3.c, in whose wait so many jiffies are left.
pub data TimedThread : Type 0 where
  timed_looping : TimedThread
  timed_waiting : ℕ → TimedThread
  timed_ended : TimedThread

-- What `waiter_thread_fn` of my_completion_ex3.c does after its wait has returned `ret`. The file
-- declares no `button_comp`, so what `reinit_completion(&button_comp)` does to the driver is a
-- parameter.
unfoldable pub after_wait : (Driver → Driver) → Bool → ℕ → Driver → TimedThread × Driver
after_wait reinit stopped ret d =
    if stopped
    then (timed_ended, d)
    else if ret == 0
    then (timed_looping, d)
    else (timed_looping, reinit d)

-- One step of `waiter_thread_fn` of my_completion_ex3.c. Each step in its wait takes a jiffy, and the
-- wait returns the jiffies that are left, at least 1, if a `complete` has come.
unfoldable pub timed_step :
    ℕ → (Driver → Driver) → Bool → TimedThread → Driver → TimedThread × Driver
unfolding after_wait
timed_step timeout reinit stopped timed_looping d =
    if stopped then (timed_ended, d) else (timed_waiting timeout, d)
timed_step timeout reinit stopped (timed_waiting left) d =
    if ltb 0 d.done
    then after_wait reinit stopped (if left == 0 then 1 else left) (record d { done = d.done - 1 })
    else if left == 0
    then after_wait reinit stopped 0 d
    else (timed_waiting (left - 1), d)
timed_step timeout reinit stopped timed_ended d = (timed_ended, d)

-- The thread's start in `my_init` and what follows it.
start_waiter : Os → Log → ℤ × Log
start_waiter os log =
    if is_err (os.kthread_run thread_1)
    then (ptr_err (os.kthread_run thread_1), release irq_line ∷ log)
    else (pos 0, acquire thread_1 ∷ log)

unfoldable pub my_init : Os → ℤ × Log
unfolding external_gpio_irq_setup start_waiter
my_init os =
    let (status, log) = external_gpio_irq_setup os [] in
    if nonzero status then (status, log) else start_waiter os log

unfoldable pub my_exit : Log → Log
my_exit log = release irq_line ∷ release thread_1 ∷ log
