-- ===== src/OldCdev/Tests.antt =====
-- 06_character_device_driver/02_my_first_cdev_dreplicated_method/my_cdev.c with a taken major number.
use linux_driver_development.Base.{[], negsuc, ◌∷◌}
use linux_driver_development.Kernel.{Settles, region}
use linux_driver_development.OldCdev.{my_init, old_cdev_lifecycle-Settles}

taken-Settles : Settles (region ∷ []) (my_init (negsuc 15))
taken-Settles = (old_cdev_lifecycle-Settles (negsuc 15)).0
