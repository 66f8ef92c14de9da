-- ===== src/GpioCtrl/SetGet.antt =====
-- 11_gpio_ctrl/set_get/set_get.c.
use linux_driver_development.Base.{
  Bool, arith, if◌then◌else◌, negsuc, none, nonzero, not, pos, some, ℤ, ◌&&◌, ◌≡◌, ◌≢◌,
}
use linux_driver_development.Kernel.{Os, button_pin, led_pin, ledger, touch}
use linux_driver_development.GpioCtrl.{Board, as_output, call, set_value, untouched}

-- `my_init` works with descriptors that nobody has requested, so it acquires nothing.
pub my_init : Os → ℤ × Board
my_init os =
    if not (os.gpio_to_desc led_pin)
    then (negsuc 0, untouched)
    else if not (os.gpio_to_desc button_pin)
    then (negsuc 0, untouched)
    else if nonzero (os.gpio_direction led_pin)
    then (negsuc 0, untouched)
    else if nonzero (os.gpio_direction button_pin)
    then (negsuc 0, as_output untouched)
    else (pos 0, call (touch button_pin) (set_value 1 (as_output untouched)))

pub my_exit : Board → Board
my_exit b = set_value 0 b

-- The condition under which `my_init` works.
abbrev pub all_there : Os → Bool
all_there os =
    os.gpio_to_desc led_pin
    && os.gpio_to_desc button_pin
    && not (nonzero (os.gpio_direction led_pin))
    && not (nonzero (os.gpio_direction button_pin))

-- `my_init` returns 0 and has put the LED on exactly when both descriptors are found and both
-- directions can be set; otherwise it returns -1 and the LED is off or its pin is not an output. It
-- requests no pin, so `my_exit`, which puts the LED out, works with a pin that the driver never held.
pub set_get_lifecycle :
    (os : Os)
    → let (status, b) = my_init os in
      (if all_there os
        then (status ≡ pos 0) × (b.led ≡ some 1)
        else (status ≡ negsuc 0) × (b.led ≢ some 1))
      × ((my_exit b).led ≡ some 0)
      × (ledger (my_exit b).log ≡ none)
unfolding my_init my_exit ledger
set_get_lifecycle os = ground arith
