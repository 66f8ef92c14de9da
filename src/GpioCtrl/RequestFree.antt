-- ===== src/GpioCtrl/RequestFree.antt =====
-- 11_gpio_ctrl/request_free/req_free.c.
use linux_driver_development.Base.{
  Bool, [], arith, if◌then◌else◌, is_neg, none, nonzero, not, pos, some, true, ℤ, ◌-ℤ◌, ◌∷◌, ◌≡◌,
  ◌⊎◌,
}
use linux_driver_development.Kernel.{
  Os, Resource, acquire, button_pin, led_pin, ledger, release, touch,
}
use linux_driver_development.GpioCtrl.{Board, as_output, call, set_value, untouched}

-- `return -status`
abbrev pub failed : ℤ → Board → ℤ × Board
failed status b = (pos 0 -ℤ status, b)

-- The direction of the button's pin in `my_init`, and what follows it.
button_direction : Os → Board → ℤ × Board
unfolding ◌-ℤ◌
button_direction os b =
    if nonzero (os.gpio_direction button_pin)
    then failed (os.gpio_direction button_pin)
        (call (release button_pin) (call (release led_pin) b))
    else (pos 0, call (touch button_pin) (set_value 1 b))

-- The request of the button's pin in `my_init`, and what follows it.
request_button : Os → Board → ℤ × Board
unfolding button_direction ◌-ℤ◌
request_button os b =
    if nonzero (os.gpio_request button_pin)
    then failed (os.gpio_request button_pin) (call (release led_pin) b)
    else button_direction os (call (acquire button_pin) b)

-- The direction of the LED's pin in `my_init`, and what follows it.
led_direction : Os → Board → ℤ × Board
unfolding request_button ◌-ℤ◌
led_direction os b =
    if nonzero (os.gpio_direction led_pin)
    then failed (os.gpio_direction led_pin) (call (release led_pin) b)
    else request_button os (as_output b)

unfoldable pub my_init : Os → ℤ × Board
unfolding led_direction ◌-ℤ◌
my_init os =
    if nonzero (os.gpio_request led_pin)
    then failed (os.gpio_request led_pin) untouched
    else led_direction os (call (acquire led_pin) untouched)

pub my_exit : Board → Board
my_exit b = call (release button_pin) (call (release led_pin) (set_value 0 b))

-- The kernel's calls fail with a negative status.
abbrev pub Negative : Os → Type 0
Negative os =
    (r : Resource)
    → ((os.gpio_request r ≡ pos 0) ⊎ (is_neg (os.gpio_request r) ≡ true))
      × ((os.gpio_direction r ≡ pos 0) ⊎ (is_neg (os.gpio_direction r) ≡ true))

-- The kernel keeps a module whose `init` returns no negative number.
abbrev pub kept : ℤ → Bool
kept status = not (is_neg status)

-- On every path, `my_init` either returns 0, with both pins held and the LED on, and `my_exit` then
-- puts the LED out and gives both back; or it returns a status other than 0 and holds no pin.
pub request_free_lifecycle :
    (os : Os)
    → let (status, b) = my_init os in
      (status ≡ pos 0)
        × (ledger b.log ≡ some (button_pin ∷ led_pin ∷ []))
        × (b.led ≡ some 1)
        × ((my_exit b).led ≡ some 0)
        × (ledger (my_exit b).log ≡ some [])
      ⊎ (nonzero status ≡ true) × (ledger b.log ≡ some [])
unfolding my_init my_exit ledger ◌-ℤ◌
request_free_lifecycle os = ground arith

-- Where the kernel's calls fail with negative statuses, `my_init` never returns a negative one: on
-- every path the kernel keeps the module. Either it returns 0, or no pin is held, and `my_exit`, when
-- the module is unloaded, works with a pin that it does not hold.
pub request_free_failure_kept :
    (os : Os)
    → Negative os
    → let (status, b) = my_init os in
      (kept status ≡ true)
      × ((status ≡ pos 0) ⊎ (ledger b.log ≡ some []) × (ledger (my_exit b).log ≡ none))
unfolding my_init my_exit ledger ◌-ℤ◌
request_free_failure_kept os h = ground (arith, h led_pin, h button_pin)
