-- ===== src/Debounce/Lifecycle.antt =====
-- Loading and unloading the module of 12_gpio_irq/irq/irq.c.
use linux_driver_development.Base.{
  [], arith, false, is_neg, pos, pos_part, some, true, ◌∷◌, ◌≡◌, ◌⊎◌,
}
use linux_driver_development.Kernel.{Os, Resource, Settles, button_pin, irq_line, led_pin, ledger}
use linux_driver_development.Debounce.{my_exit, my_init, set_directions}

-- `my_init` returns 0 and holds the interrupt line, which `my_exit` gives back, or another number and
-- holds nothing. Where the kernel's statuses are 0 or negative, as documented, its result is negative
-- only if a pin has no descriptor: every other failure becomes a positive number.
pub debounce_failures :
    (os : Os)
    → ((r : Resource) → pos_part (os.gpio_direction r) ≡ 0)
    → pos_part os.request_irq ≡ 0
    → Settles (irq_line ∷ []) (my_init os)
      × ((my_init os).0 ≡ pos 0 → ledger (my_exit (my_init os).1) ≡ some [])
      × (is_neg (my_init os).0 ≡ true
          → (os.gpio_to_desc led_pin ≡ false) ⊎ (os.gpio_to_desc button_pin ≡ false))
unfolding my_init my_exit set_directions ledger
debounce_failures os a b = ground (arith, a led_pin, a button_pin, b)
