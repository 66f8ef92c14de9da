-- ===== src/Fasync.antt =====
-- 18_wait_queue_poll_fasync/04_fasync/my_fasync.c: the button's interrupt sends SIGIO to the files
-- that registered for it. `my_open` changes no state.
pub mod Notification
pub mod Lifecycle
pub mod Client
pub mod Main
mod Tests
use linux_driver_development.Base.{
  Bool, List, [], false, if◌then◌else◌, neg, nonzero, not, pos, true, ℕ, ℤ, ◌++◌, ◌∷◌,
}
use linux_driver_development.Kernel.{
  Log, Os, button_pin, eagain, efault, irq_line, is_null, release,
}
use linux_driver_development.Registration.{delete_class, register, unregister}
use linux_driver_development.ButtonIrq.{setup_by_number}

-- `sizeof(message)`, with the zero byte.
abbrev pub message_size : ℕ
message_size = 20

-- The files registered for notification (`async_queue`), `data_available`, and the files that were
-- sent SIGIO, newest first. Files are numbered.
pub record Driver : Type 0 where
  pub async_queue : List ℕ
  pub data_available : Bool
  pub signalled : List ℕ

-- The argument says whether copy_to_user fails.
pub my_read : Bool → Driver → ℤ × Driver
my_read copy_fails d =
    if not d.data_available
    then (neg (pos eagain), d)
    else (let d' = record d { data_available = false } in
        if copy_fails then (neg (pos efault), d') else (pos message_size, d'))

-- kill_fasync sends the signal to every file of the queue.
pub isr : Driver → Driver
isr d = record d { data_available = true; signalled = d.async_queue ++ d.signalled }

-- fasync_helper is the kernel's: it gets the file, whether to register it, and the queue, and
-- returns a status and the new queue.
module _ (fasync_helper : ℕ → Bool → List ℕ → ℤ × List ℕ) where
  pub my_fasync : ℕ → Bool → Driver → ℤ × Driver
  my_fasync file on d =
      let (status, queue) = fasync_helper file on d.async_queue in
      (status, record d { async_queue = queue })

  pub my_release : ℕ → Driver → ℤ × Driver
  unfolding my_fasync
  my_release file d = (pos 0, (my_fasync file false d).1)

external_gpio_irq_setup : Os → Log → ℤ × Log
unfolding setup_by_number
external_gpio_irq_setup os log = setup_by_number os log

-- The result of external_gpio_irq_setup is tested and not kept, so `status` is still 0.
set_up_button : Os → Log → ℤ × Log
unfolding external_gpio_irq_setup delete_class
set_up_button os log =
    let (failed, log') = external_gpio_irq_setup os log in
    if nonzero failed then delete_class (pos 0) log' else (pos 0, log')

unfoldable pub my_init : Os → ℤ × Log
unfolding register set_up_button
my_init os = register is_null os (set_up_button os) []

unfoldable pub my_exit : Log → Log
unfolding unregister
my_exit log = unregister (release button_pin ∷ release irq_line ∷ log)
