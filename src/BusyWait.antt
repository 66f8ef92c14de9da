-- ===== src/BusyWait.antt =====
-- 18_wait_queue_poll_fasync/01_busy_wait/busy_wait.c: a reader without O_NONBLOCK spins until the
-- button's interrupt makes data available. `my_open` and `my_release` change no state.
pub mod Spin
pub mod Lifecycle
mod Tests
use linux_driver_development.Base.{
  Bool, Option, [], false, if◌then◌else◌, neg, none, nonzero, pos, some, suc, true, zero, ℕ, ℤ, ◌+◌,
  ◌∷◌,
}
use linux_driver_development.Kernel.{Log, Os, eagain, efault, irq_line, is_null, release}
use linux_driver_development.Registration.{delete_class, register, unregister}
use linux_driver_development.ButtonIrq.{setup_by_descriptor}

-- `sizeof(message)`, with the zero byte.
abbrev pub message_size : ℕ
message_size = 19

-- `while (!data_available) cpu_relax();` with fuel: `sees i` is `data_available` at the i-th look. The
-- result is the number of the look that ends the loop; `none` means that the fuel ran out.
pub spin : ℕ → (ℕ → Bool) → ℕ → Option ℕ
spin zero sees i = none
spin (suc fuel) sees i = elim (sees i) [ true ↦ some i | false ↦ spin fuel sees (i + 1) ]

-- Whether O_NONBLOCK is set, and whether copy_to_user fails.
pub record ReadCall : Type 0 where
  pub nonblock : Bool
  pub copy_fails : Bool

consume : ReadCall → ℤ × Bool
consume c = if c.copy_fails then (neg (pos efault), false) else (pos message_size, false)

-- The result and `data_available` afterwards; the test in front of the loop is look 0. `none` means
-- that the reader still spins.
unfoldable pub my_read : ReadCall → ℕ → (ℕ → Bool) → Option (ℤ × Bool)
unfolding consume
my_read c fuel sees =
    if sees 0
    then some (consume c)
    else if c.nonblock
    then some (neg (pos eagain), sees 0)
    else elim (spin fuel sees 1) [ none ↦ none | some i ↦ some (consume c) ]

-- `data_available` after the interrupt service routine.
unfoldable pub isr : Bool → Bool
isr available = true

-- A missing descriptor returns `status` before anything was assigned to it.
external_gpio_irq_setup : Os → Log → ℤ × Log
unfolding setup_by_descriptor
external_gpio_irq_setup os log = setup_by_descriptor os.indeterminate os log

set_up_button : Os → Log → ℤ × Log
unfolding external_gpio_irq_setup delete_class
set_up_button os log =
    let (status, log') = external_gpio_irq_setup os log in
    if nonzero status then delete_class status log' else (pos 0, log')

unfoldable pub my_init : Os → ℤ × Log
unfolding register set_up_button
my_init os = register is_null os (set_up_button os) []

unfoldable pub my_exit : Log → Log
unfolding unregister
my_exit log = unregister (release irq_line ∷ log)
