-- ===== src/OldCdev.antt =====
-- 06_character_device_driver/02_my_first_cdev_dreplicated_method/my_cdev.c: a character device
-- registered in the old way, with no file operation.
mod Tests
use linux_driver_development.Base.{[], arith, if◌then◌else◌, nonzero, pos, some, ℤ, ◌∷◌, ◌≡◌}
use linux_driver_development.Kernel.{Log, Settles, acquire, ledger, region, release}

-- register_chrdev returns `status`.
unfoldable pub my_init : ℤ → ℤ × Log
my_init status = if nonzero status then (status, []) else (pos 0, acquire region ∷ [])

unfoldable pub my_exit : Log → Log
my_exit log = release region ∷ log

-- `my_init` returns 0 and holds the device numbers, which `my_exit` gives back, or it returns a status
-- other than 0 and holds nothing.
pub old_cdev_lifecycle-Settles :
    (status : ℤ)
    → Settles (region ∷ []) (my_init status)
      × (((my_init status).0 ≡ pos 0) → ledger (my_exit (my_init status).1) ≡ some [])
unfolding my_init my_exit ledger
old_cdev_lifecycle-Settles status = (ground arith, λ e. ground (arith, e))
