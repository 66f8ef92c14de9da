-- ===== src/FirstCdev/Tests.antt =====
-- Runs of 06_character_device_driver/01_my_first_cdev/my_cdev.c at concrete answers of the kernel.
use linux_driver_development.Base.{[], arith}
use linux_driver_development.Registration.{registered}
use linux_driver_development.FirstCdev.{my_init}
use linux_driver_development.FirstCdev.Lifecycle.{first_cdev-Settles}
use linux_driver_development.Kernel.{Os, Settles, err_ptr, willing}

-- device_create fails with -ENOMEM.
abbrev no_device : Os
no_device = record willing { device_create = err_ptr 12 }

no_device-Settles : Settles (registered []) (my_init no_device)
no_device-Settles = first_cdev-Settles no_device (λ e. ground (arith, e)) (λ e. ground (arith, e))
