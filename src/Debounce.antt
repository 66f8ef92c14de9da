-- ===== src/Debounce.antt =====
-- 12_gpio_irq/irq/irq.c, with USE_DESCRIPTOR_API as the file defines it: each interrupt of the button
-- starts a timer again, and the timer toggles the LED if the button's level has not changed.
pub mod Burst
pub mod Lifecycle
mod Tests
use linux_driver_development.Base.{
  Bool, Option, [], if◌then◌else◌, ltb, neg, negsuc, none, nonzero, not, pos, some, ℕ, ℤ, ◌%◌, ◌+◌,
  ◌-◌, ◌==◌, ◌^◌, ◌∷◌,
}
use linux_driver_development.Kernel.{Log, Os, acquire, button_pin, irq_line, led_pin, release}

-- `unsigned long` has 64 bits.
abbrev pub jiffies_mod : ℕ
jiffies_mod = 2 ^ 64

-- The LED, `last_button_state`, and when `debounce_timer` expires, if it is active.
pub record Driver : Type 0 where
  pub led : Bool
  pub last_button_state : ℕ
  pub expires : Option ℕ

-- `button_isr` at the time `jiffies`, when the button has the given level; `delay` is
-- msecs_to_jiffies(DEBOUNCE_DELAY), the kernel's.
unfoldable pub button_isr : ℕ → ℕ → ℕ → Driver → Driver
button_isr delay jiffies level d = record d {
  last_button_state = level;
  expires = some ((jiffies + delay) % jiffies_mod);
}

-- `debounce_timer_callback`, when the button has the given level.
unfoldable pub debounce_timer_callback : ℕ → Driver → Driver
debounce_timer_callback level d =
    if level == d.last_button_state then record d { led = not d.led } else d

-- The kernel's macro time_after_eq.
abbrev pub time_after_eq : ℕ → ℕ → Bool
time_after_eq now e = ltb ((now + jiffies_mod - e) % jiffies_mod) (2 ^ 63)

-- The kernel looks at the timer: if it is active and has expired, it is taken off, and its callback
-- is called.
unfoldable pub timer_tick : ℕ → ℕ → Driver → Driver
unfolding debounce_timer_callback
timer_tick jiffies level d = elim d.expires [
  | none ↦ d
  | some e ↦
      if time_after_eq jiffies e
      then debounce_timer_callback level (record d { expires = none })
      else d
]

-- `my_init` behind the two descriptors.
unfoldable pub set_directions : Os → Log → ℤ × Log
set_directions os log =
    if nonzero (os.gpio_direction led_pin)
    then (neg (os.gpio_direction led_pin), log)
    else if nonzero (os.gpio_direction button_pin)
    then (neg (os.gpio_direction button_pin), log)
    else if nonzero os.request_irq
    then (neg os.request_irq, log)
    else (pos 0, acquire irq_line ∷ log)

unfoldable pub my_init : Os → ℤ × Log
unfolding set_directions
my_init os =
    if not (os.gpio_to_desc led_pin)
    then (negsuc 0, [])
    else if not (os.gpio_to_desc button_pin)
    then (negsuc 0, [])
    else set_directions os []

unfoldable pub my_exit : Log → Log
my_exit log = release irq_line ∷ log
