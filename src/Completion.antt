-- ===== src/Completion.antt =====
-- 19_kernel_synchronization/03_completion/my_completion.c: two threads wait for the button on one
-- completion.
pub mod Presses
pub mod Waiters
pub mod Lifecycle
mod Tests
use linux_driver_development.Base.{
  Bool, [], false, if◌then◌else◌, ltb, neg, nonzero, pos, true, ℕ, ℤ, ◌%◌, ◌+◌, ◌-◌, ◌^◌, ◌∷◌,
}
use linux_driver_development.Kernel.{
  Log, Os, acquire, einval, irq_line, is_err, ptr_err, release, thread_1, thread_2,
}
use linux_driver_development.ButtonIrq.{setup_by_descriptor}

-- `unsigned long` has 64 bits.
abbrev pub jiffies_mod : ℕ
jiffies_mod = 2 ^ 64

-- `press_count` is an int of 32 bits, which wraps round; the model keeps its bits as a number below
-- 2 ^ 32.
abbrev pub int_mod : ℕ
int_mod = 2 ^ 32

-- The completion's counter of unused `complete` calls, each of which lets one wait through, and the
-- variables of the interrupt.
pub record Driver : Type 0 where
  pub done : ℕ
  pub press_count : ℕ
  pub last_jiffies : ℕ

-- `isr` at the time `jiffies`; `delay` is msecs_to_jiffies(DEBOUNCE_MS), the kernel's. The Boolean
-- says whether the press is accepted.
unfoldable pub isr : ℕ → ℕ → Driver → Driver × Bool
isr delay jiffies d =
    if ltb ((jiffies + jiffies_mod - d.last_jiffies) % jiffies_mod) delay then (d, false) else (
      record {
        done = d.done + 1;
        press_count = (d.press_count + 1) % int_mod;
        last_jiffies = jiffies;
      },
      true,
    )

-- A waiter: about to test kthread_should_stop, asleep in wait_for_completion_interruptible, woken
-- up and about to call reinit_completion, or returned.
pub data Waiter : Type 0 where
  testing asleep woken returned : Waiter

-- One step of `waiter_thread_fn_1` or `waiter_thread_fn_2`, which are alike. `stopped` is what
-- kthread_should_stop returns, `signal` whether a signal ends the sleep, such as kthread_stop raises in
-- newer kernels. A waiter that sleeps and finds nothing stays asleep.
pub waiter_step : Bool → Bool → Waiter → Driver → Waiter × Driver
waiter_step stopped signal testing d = if stopped then (returned, d) else (asleep, d)
waiter_step stopped signal asleep d =
    if ltb 0 d.done
    then (woken, record d { done = d.done - 1 })
    else if signal
    then (returned, d)
    else (asleep, d)
waiter_step stopped signal woken d = (testing, record d { done = 0 })
waiter_step stopped signal returned d = (returned, d)

unfoldable pub external_gpio_irq_setup : Os → Log → ℤ × Log
unfolding setup_by_descriptor
external_gpio_irq_setup os log = setup_by_descriptor (neg (pos einval)) os log

-- The second thread's start in `my_init`.
start_second : Os → Log → ℤ × Log
start_second os log =
    if is_err (os.kthread_run thread_2)
    then (ptr_err (os.kthread_run thread_2), release irq_line ∷ log)
    else (pos 0, acquire thread_2 ∷ log)

-- The first thread's start in `my_init` and what follows it.
start_first : Os → Log → ℤ × Log
unfolding start_second
start_first os log =
    if is_err (os.kthread_run thread_1)
    then (ptr_err (os.kthread_run thread_1), release irq_line ∷ log)
    else start_second os (acquire thread_1 ∷ log)

unfoldable pub my_init : Os → ℤ × Log
unfolding external_gpio_irq_setup start_first
my_init os =
    let (status, log) = external_gpio_irq_setup os [] in
    if nonzero status then (status, log) else start_first os log

unfoldable pub my_exit : Log → Log
my_exit log = release irq_line ∷ release thread_2 ∷ release thread_1 ∷ log
