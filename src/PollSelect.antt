-- ===== src/PollSelect.antt =====
-- 18_wait_queue_poll_fasync/03_poll_select/my_poll.c: every interrupt counts up, and each open file
-- remembers the count that it has read.
pub mod Events
pub mod Mailbox
pub mod View
pub mod Observed
pub mod Lifecycle
mod Tests
use linux_driver_development.Base.{
  Bool, Option, [], if◌then◌else◌, neg, none, nonzero, not, pos, some, ℕ, ℤ, ◌%◌, ◌+◌, ◌==◌, ◌^◌,
  ◌∷◌,
}
use linux_driver_development.Kernel.{
  Log, Os, button_pin, eagain, efault, erestartsys, irq_line, is_null, release,
}
use linux_driver_development.Registration.{delete_class, register, unregister}
use linux_driver_development.ButtonIrq.{setup_by_number}

abbrev pub uint_mod : ℕ
uint_mod = 2 ^ 32

abbrev pub message_size : ℕ
message_size = 19

-- `struct my_dev_data`
pub record MyDevData : Type 0 where
  pub last_event : ℕ

-- How wait_event_interruptible ends: its condition is true, with the value that `event_count` has
-- then, or a signal came.
pub data Wake : Type 0 where
  condition_true : ℕ → Wake
  signal_came : Wake

pub record ReadCall : Type 0 where
  pub nonblock : Bool
  pub wake : Wake
  pub copy_fails : Bool

-- The part of `my_read` behind the wait.
unfoldable pub consume : ReadCall → ℕ → MyDevData → ℤ × MyDevData
consume c event_count d =
    let d' = record d { last_event = event_count } in
    if c.copy_fails then (neg (pos efault), d') else (pos message_size, d')

unfoldable pub my_read : ReadCall → ℕ → MyDevData → ℤ × MyDevData
unfolding consume
my_read c event_count d =
    if not (d.last_event == event_count)
    then consume c event_count d
    else if c.nonblock
    then (neg (pos eagain), d)
    else elim c.wake [
      | signal_came ↦ (neg (pos erestartsys), d)
      | condition_true count ↦ consume c count d
    ]

-- What `my_poll` reports: nothing, or EPOLLIN | EPOLLRDNORM.
pub data Mask : Type 0 where
  nothing in_rdnorm : Mask

unfoldable pub my_poll : ℕ → MyDevData → Mask
my_poll event_count d = if not (d.last_event == event_count) then in_rdnorm else nothing

-- `none` is -ENOMEM; the argument says whether kmalloc succeeds.
unfoldable pub my_open : Bool → ℕ → Option MyDevData
my_open allocated event_count =
    if allocated then some (record { last_event = event_count }) else none

-- `event_count++`
unfoldable pub isr : ℕ → ℕ
isr event_count = (event_count + 1) % uint_mod

external_gpio_irq_setup : Os → Log → ℤ × Log
unfolding setup_by_number
external_gpio_irq_setup os log = setup_by_number os log

-- The call of external_gpio_irq_setup in `my_init`: its result is tested and not kept, so `status`
-- is still the 0 of cdev_add.
set_up_button : Os → Log → ℤ × Log
unfolding external_gpio_irq_setup delete_class
set_up_button os log =
    let (failed, log') = external_gpio_irq_setup os log in
    if nonzero failed then delete_class (pos 0) log' else (pos 0, log')

unfoldable pub my_init : Os → ℤ × Log
unfolding register set_up_button
my_init os = register is_null os (set_up_button os) []

unfoldable pub my_exit : Log → Log
unfolding unregister
my_exit log = unregister (release button_pin ∷ release irq_line ∷ log)
