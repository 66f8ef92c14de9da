-- ===== src/Fasync/Lifecycle.antt =====
-- Loading and unloading the module of 18_wait_queue_poll_fasync/04_fasync/my_fasync.c.
use linux_driver_development.Base.{[], arith, none, nonzero, pos, some, true, ◌∷◌, ◌≡◌, ◌⊎◌}
use linux_driver_development.Kernel.{Os, button_pin, device_node, irq_line, ledger, valid}
use linux_driver_development.Registration.{registered}
use linux_driver_development.Fasync.{my_exit, my_init}

-- If the registration succeeds and the button cannot be set up, at any of its three steps, `my_init`
-- returns 0 though it has given back all but the device node, and unloading then frees what is not
-- held.
pub fasync_failure_unreported :
    (os : Os)
    → os.alloc_chrdev_region ≡ pos 0
    → os.cdev_add ≡ pos 0
    → os.class_create ≡ valid
    → os.device_create ≡ valid
    → (nonzero (os.gpio_request button_pin) ≡ true)
      ⊎ (nonzero (os.gpio_direction button_pin) ≡ true)
      ⊎ (nonzero os.request_irq ≡ true)
    → ((my_init os).0 ≡ pos 0)
      × (ledger (my_init os).1 ≡ some (device_node ∷ []))
      × (ledger (my_exit (my_init os).1) ≡ none)
unfolding my_init my_exit ledger
fasync_failure_unreported os a b c d e = ground arith

-- If every call succeeds, `my_init` returns 0 and holds the registered device, the pin and the
-- interrupt line, and `my_exit` gives back all of it.
pub fasync_unloads :
    (os : Os)
    → os.alloc_chrdev_region ≡ pos 0
    → os.cdev_add ≡ pos 0
    → os.class_create ≡ valid
    → os.device_create ≡ valid
    → os.gpio_request button_pin ≡ pos 0
    → os.gpio_direction button_pin ≡ pos 0
    → os.request_irq ≡ pos 0
    → ((my_init os).0 ≡ pos 0)
      × (ledger (my_init os).1 ≡ some (irq_line ∷ button_pin ∷ registered []))
      × (ledger (my_exit (my_init os).1) ≡ some [])
unfolding my_init my_exit ledger
fasync_unloads os a b c d e f g = ground arith
