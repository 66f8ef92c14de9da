-- ===== src/FirstCdev.antt =====
-- 06_character_device_driver/01_my_first_cdev/my_cdev.c: a module that registers a character device.
use linux_driver_development.Base.{[], pos, ℤ}
use linux_driver_development.Kernel.{Log, Os, is_err}
use linux_driver_development.Registration.{register, unregister}
pub mod Lifecycle
mod Tests

unfoldable pub my_init : Os → ℤ × Log
unfolding register
my_init os = register is_err os (λ log. (pos 0, log)) []

unfoldable pub my_exit : Log → Log
unfolding unregister
my_exit log = unregister log
