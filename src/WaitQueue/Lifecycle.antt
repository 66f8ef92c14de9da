-- ===== src/WaitQueue/Lifecycle.antt =====
-- Loading and unloading the module of 18_wait_queue_poll_fasync/02_wait_queue/wait_queue.c.
use linux_driver_development.Base.{[], arith, false, none, nonzero, pos, some, true, ◌∷◌, ◌≡◌, ◌⊎◌}
use linux_driver_development.Kernel.{Os, button_pin, device_node, irq_line, is_err, ledger, valid}
use linux_driver_development.Registration.{registered}
use linux_driver_development.WaitQueue.{my_exit, my_init}

-- Where neither class_create nor device_create returns an error pointer and the button's descriptor
-- is found, `my_init` returns 0 and holds the interrupt line and the registered device; or it returns
-- a status other than 0 and holds nothing, or the device node alone: that is not destroyed if the
-- button cannot be set up.
pub wait_queue_init_outcome :
    (os : Os)
    → is_err os.class_create ≡ false
    → is_err os.device_create ≡ false
    → os.gpio_to_desc button_pin ≡ true
    → ((my_init os).0 ≡ pos 0) × (ledger (my_init os).1 ≡ some (irq_line ∷ registered []))
      ⊎ (nonzero (my_init os).0 ≡ true)
        × ((ledger (my_init os).1 ≡ some []) ⊎ (ledger (my_init os).1 ≡ some (device_node ∷ [])))
unfolding my_init ledger
wait_queue_init_outcome os hc hd hb = ground arith

-- If the registration succeeds and the button has no descriptor, the status of `my_init` is the
-- value of a variable that nothing was assigned to; where that is 0, the module is loaded without an
-- interrupt line, and unloading it frees a line that it does not hold.
pub wait_queue_no_descriptor :
    (os : Os)
    → os.alloc_chrdev_region ≡ pos 0
    → os.cdev_add ≡ pos 0
    → os.class_create ≡ valid
    → os.device_create ≡ valid
    → os.gpio_to_desc button_pin ≡ false
    → ((my_init os).0 ≡ os.indeterminate)
      × (os.indeterminate ≡ pos 0
          → (ledger (my_init os).1 ≡ some (registered []))
            × (ledger (my_exit (my_init os).1) ≡ none))
unfolding my_init my_exit ledger
wait_queue_no_descriptor os a b c d e = ground arith
