-- ===== src/Spinlock/Lifecycle.antt =====
-- Loading and unloading the module of 19_kernel_synchronization/02_spinlock/my_spinlock.c.
use linux_driver_development.Base.{[], arith, false, nonzero, pos, some, true, ◌∷◌, ◌≡◌, ◌⊎◌}
use linux_driver_development.Kernel.{Os, buffer, device_node, irq_line, is_err, ledger}
use linux_driver_development.Registration.{registered}
use linux_driver_development.Spinlock.{my_exit, my_init}

-- Where neither class_create nor device_create returns an error pointer, `my_init` returns 0 and holds
-- the interrupt line, the registered device and the buffer, and `my_exit` then gives back all of it; or
-- it returns a status other than 0 and holds nothing, if the buffer was not allocated, or the buffer,
-- or the buffer and the device node: neither is given back on the error paths.
pub spinlock_init_outcome :
    (os : Os)
    → is_err os.class_create ≡ false
    → is_err os.device_create ≡ false
    → ((my_init os).0 ≡ pos 0)
        × (ledger (my_init os).1 ≡ some (irq_line ∷ registered (buffer ∷ [])))
        × (ledger (my_exit (my_init os).1) ≡ some [])
      ⊎ (nonzero (my_init os).0 ≡ true)
        × ((os.alloc buffer ≡ false) × (ledger (my_init os).1 ≡ some [])
            ⊎ (ledger (my_init os).1 ≡ some (buffer ∷ []))
            ⊎ (ledger (my_init os).1 ≡ some (device_node ∷ buffer ∷ [])))
unfolding my_init my_exit ledger
spinlock_init_outcome os hc hd = ground arith
