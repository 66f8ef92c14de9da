-- ===== src/FirstCdev/Lifecycle.antt =====
-- Loading and unloading the module of 06_character_device_driver/01_my_first_cdev/my_cdev.c.
use linux_driver_development.Base.{[], arith, false, is_neg, none, pos, some, ℕ, ◌≡◌, ◌≢◌}
use linux_driver_development.Registration.{registered}
use linux_driver_development.Kernel.{Os, Settles, err_ptr, ledger, null}
use linux_driver_development.FirstCdev.{my_exit, my_init}

module _ (os : Os) (class_ptr : os.class_create ≢ null) (device_ptr : os.device_create ≢ null) where
  -- Where class_create and device_create do not return NULL, `my_init` either returns 0 and holds the
  -- device number region, the cdev, the class and the device, or it returns a status other than 0
  -- and has given back all that it took.
  pub first_cdev-Settles : Settles (registered []) (my_init os)
  unfolding my_init ledger
  first_cdev-Settles = ground arith

  -- Where class_create and device_create do not return NULL and `my_init` returns 0, `my_exit`
  -- gives back every resource, and nothing that is not held.
  pub first_cdev_unloads : (my_init os).0 ≡ pos 0 → ledger (my_exit (my_init os).1) ≡ some []
  unfolding my_init my_exit ledger
  first_cdev_unloads h = ground arith

-- If class_create fails with an error pointer after the first two steps succeeded, `my_init` returns
-- a status that is not negative, which the kernel does not take for a failure, though nothing is
-- held; `my_exit` then gives back what is not held.
pub first_cdev_positive_status :
    (os : Os) (e : ℕ)
    → os.alloc_chrdev_region ≡ pos 0
    → os.cdev_add ≡ pos 0
    → os.class_create ≡ err_ptr e
    → (is_neg (my_init os).0 ≡ false)
      × (ledger (my_init os).1 ≡ some [])
      × (ledger (my_exit (my_init os).1) ≡ none)
unfolding my_init my_exit ledger
first_cdev_positive_status os e a b c = ground arith
