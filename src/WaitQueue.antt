-- ===== src/WaitQueue.antt =====
-- 18_wait_queue_poll_fasync/02_wait_queue/wait_queue.c: readers sleep on a wait queue until the
-- button's interrupt makes data available. `my_open` and `my_release` change no state.
pub mod Read
pub mod Readers
pub mod Lifecycle
mod Tests
use linux_driver_development.Base.{
  Bool, [], false, if◌then◌else◌, neg, nonzero, pos, true, ℕ, ℤ, ◌∷◌,
}
use linux_driver_development.Kernel.{
  Log, Os, eagain, efault, erestartsys, irq_line, is_null, release,
}
use linux_driver_development.Registration.{delete_class, register, unregister}
use linux_driver_development.ButtonIrq.{setup_by_descriptor}

-- `sizeof(message)`, with the zero byte.
abbrev pub message_size : ℕ
message_size = 19

-- How wait_event_interruptible ends: its condition is true, or a signal came.
pub data Wake : Type 0 where
  condition_true signal_came : Wake

-- The arguments of a read: whether O_NONBLOCK is set, and `len`. And the kernel's answers: how a
-- sleep ends, and whether copy_to_user fails.
pub record ReadCall : Type 0 where
  pub nonblock : Bool
  pub len : ℕ
  pub wake : Wake
  pub copy_fails : Bool

-- The result, the number of bytes put to the user's buffer, and `data_available` afterwards.
pub record ReadReply : Type 0 where
  pub result : ℤ
  pub stored : ℕ
  pub data_available : Bool

-- The part of `my_read` behind the wait.
consume : ReadCall → ReadReply
consume c =
    if c.copy_fails
    then record { result = neg (pos efault); stored = 0; data_available = false }
    else record { result = pos message_size; stored = message_size; data_available = false }

unfoldable pub my_read : ReadCall → Bool → ReadReply
unfolding consume
my_read c available =
    if available
    then consume c
    else if c.nonblock
    then record { result = neg (pos eagain); stored = 0; data_available = available }
    else elim c.wake [
      | signal_came ↦ record {
        result = neg (pos erestartsys);
        stored = 0;
        data_available = available;
      }
      | condition_true ↦ consume c
    ]

-- The interrupt service routine: `data_available` afterwards; it also wakes the sleepers.
unfoldable pub isr : Bool → Bool
isr available = true

-- A missing descriptor returns `status` before anything was assigned to it.
external_gpio_irq_setup : Os → Log → ℤ × Log
unfolding setup_by_descriptor
external_gpio_irq_setup os log = setup_by_descriptor os.indeterminate os log

-- The call of external_gpio_irq_setup in `my_init` and what follows it.
set_up_button : Os → Log → ℤ × Log
unfolding external_gpio_irq_setup delete_class
set_up_button os log =
    let (status, log') = external_gpio_irq_setup os log in
    if nonzero status then delete_class status log' else (pos 0, log')

unfoldable pub my_init : Os → ℤ × Log
unfolding register set_up_button
my_init os = register is_null os (set_up_button os) []

unfoldable pub my_exit : Log → Log
unfolding unregister
my_exit log = unregister (release irq_line ∷ log)
