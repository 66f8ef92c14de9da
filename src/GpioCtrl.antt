-- ===== src/GpioCtrl.antt =====
-- The GPIO examples: 11_gpio_ctrl/request_free/req_free.c, which requests its two pins by their
-- numbers, and 11_gpio_ctrl/set_get/set_get.c, which finds them by their descriptors.
pub mod RequestFree
pub mod SetGet
mod Tests
use linux_driver_development.Base.{Option, [], none, some, ℕ, ◌∷◌}
use linux_driver_development.Kernel.{Call, Log, led_pin, touch}

-- The calls made, and the level that the driver gives the pin of the LED: `none` until it is an
-- output.
pub record Board : Type 0 where
  pub led : Option ℕ
  pub log : Log

abbrev pub untouched : Board
untouched = record { led = none; log = [] }

abbrev pub call : Call → Board → Board
call c b = record b { log = c ∷ b.log }

-- gpio_direction_output with the level 0, if it succeeds.
abbrev pub as_output : Board → Board
as_output b = record b { led = some 0 }

-- gpio_set_value and gpiod_set_value of the LED.
abbrev pub set_value : ℕ → Board → Board
set_value level b = record { led = some level; log = touch led_pin ∷ b.log }
