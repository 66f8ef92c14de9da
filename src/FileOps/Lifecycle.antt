-- ===== src/FileOps/Lifecycle.antt =====
-- Loading and unloading the module of 07_file_cdev_fops/01_file_ops/my_cdev.c.
use linux_driver_development.Base.{
  List, [], arith, false, if◌then◌else◌, none, nonzero, pos, some, true, ℕ, ◌∷◌, ◌≡◌, ◌≢◌, ◌⊎◌,
}
use linux_driver_development.Registration.{registered}
use linux_driver_development.Kernel.{Os, Resource, buffer, err_ptr, is_err, ledger, null}
use linux_driver_development.FileOps.{my_exit, my_init}

abbrev pub file_ops_resources : List Resource
file_ops_resources = registered (buffer ∷ [])

-- Where neither class_create nor device_create returns an error pointer, `my_init` returns 0 and
-- holds the buffer, the region, the cdev, the class and the device; or returns a status other than 0
-- and holds the buffer alone, if it was allocated, and nothing otherwise: the buffer is not given
-- back on any error path.
pub file_ops_init_leaks :
    (os : Os)
    → is_err os.class_create ≡ false
    → is_err os.device_create ≡ false
    → ((my_init os).0 ≡ pos 0) × (ledger (my_init os).1 ≡ some file_ops_resources)
      ⊎ (nonzero (my_init os).0 ≡ true)
        × (ledger (my_init os).1 ≡ some (if os.alloc buffer then buffer ∷ [] else []))
unfolding my_init ledger
file_ops_init_leaks os hc hd = ground arith

-- Where neither class_create nor device_create returns an error pointer and `my_init` returns 0,
-- `my_exit` gives back all but the buffer.
pub file_ops_exit_leaks :
    (os : Os)
    → is_err os.class_create ≡ false
    → is_err os.device_create ≡ false
    → (my_init os).0 ≡ pos 0
    → ledger (my_exit (my_init os).1) ≡ some (buffer ∷ [])
unfolding my_init my_exit ledger
file_ops_exit_leaks os hc hd h = ground arith

-- If class_create fails with an error pointer and device_create does not return NULL, after the
-- steps before them succeeded, `my_init` returns 0, and unloading then works on what is not held.
pub file_ops_error_pointer :
    (os : Os) (e : ℕ)
    → os.alloc buffer ≡ true
    → os.alloc_chrdev_region ≡ pos 0
    → os.cdev_add ≡ pos 0
    → os.class_create ≡ err_ptr e
    → os.device_create ≢ null
    → ((my_init os).0 ≡ pos 0) × (ledger (my_exit (my_init os).1) ≡ none)
unfolding my_init my_exit ledger
file_ops_error_pointer os e a b c p q = ground arith
