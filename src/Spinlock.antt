-- ===== src/Spinlock.antt =====
-- 19_kernel_synchronization/02_spinlock/my_spinlock.c: the button's interrupt writes a text to a
-- shared buffer under a spinlock, and a read takes it from there. `my_open` and `my_release` change
-- no state.
pub mod Read
pub mod Lifecycle
mod Tests
use linux_driver_development.Base.{
  List, Option, [], if◌then◌else◌, neg, none, nonzero, pos, replicate, some, take, ℕ, ℤ, ◌+◌, ◌==◌,
  ◌∷◌,
}
use linux_driver_development.Kernel.{
  Log, Os, UserAccess, acquire, buffer, copy_to_user, efault, einval, enomem, irq_line, is_null,
  patch, release, snprintf, strlen,
}
use linux_driver_development.Registration.{delete_class, register, unregister}
use linux_driver_development.ButtonIrq.{setup_by_descriptor}

abbrev pub shared_buffer_size : ℕ
shared_buffer_size = 64

pub record Shared : Type 0 where
  pub shared_buffer : List ℕ
  pub shared_len : ℕ
  pub count : ℕ

-- `format n` is the text that the kernel's snprintf makes of "Button pressed! %d\n" and n. `none` is a
-- strlen that reads beyond the buffer.
pub isr : (ℕ → List ℕ) → Shared → Option Shared
isr format s =
    let buf = snprintf s.shared_buffer shared_buffer_size (format s.count) in
    elim (strlen buf) [
      | none ↦ none
      | some len ↦ some (record { shared_buffer = buf; shared_len = len; count = s.count + 1 })
    ]

-- `my_read`: its result and the bytes delivered. `stack` is what `local_buffer` holds before it is
-- assigned, `locked` the shared state in the critical section, and `unlocked` the one behind it, where
-- `shared_len` is read again. `none` is a copy that reaches beyond the local buffer.
pub my_read : UserAccess → List ℕ → Shared → Shared → Option (ℤ × List ℕ)
unfolding patch copy_to_user
my_read u stack locked unlocked =
    let local_buffer = patch stack 0 (take locked.shared_len locked.shared_buffer) in
    elim (copy_to_user u local_buffer 0 unlocked.shared_len) [
      | none ↦ none
      | some bytes ↦ some (
        (if u.not_copied unlocked.shared_len == 0
            then pos unlocked.shared_len
            else neg (pos efault)),
        bytes,
      )
    ]

pub external_gpio_irq_setup : Os → Log → ℤ × Log
unfolding setup_by_descriptor
external_gpio_irq_setup os log = setup_by_descriptor (neg (pos einval)) os log

-- The call of external_gpio_irq_setup in `my_init` and what follows it.
set_up_button : Os → Log → ℤ × Log
unfolding external_gpio_irq_setup delete_class
set_up_button os log =
    let (status, log') = external_gpio_irq_setup os log in
    if nonzero status then delete_class status log' else (pos 0, log')

unfoldable pub my_init : Os → ℤ × Log
unfolding register set_up_button
my_init os =
    if os.alloc buffer
    then register is_null os (set_up_button os) (acquire buffer ∷ [])
    else (neg (pos enomem), [])

-- The buffer after the `memset` of `my_init`.
abbrev pub cleared : Shared
cleared = record { shared_buffer = replicate shared_buffer_size 0; shared_len = 0; count = 1 }

unfoldable pub my_exit : Log → Log
unfolding unregister
my_exit log = unregister (release buffer ∷ release irq_line ∷ log)
