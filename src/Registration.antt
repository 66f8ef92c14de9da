-- ===== src/Registration.antt =====
-- The sequence that every character device of the repository repeats in its `my_init`, as in
-- 06_character_device_driver/01_my_first_cdev/my_cdev.c: device numbers, cdev, class, device, with
-- `goto` labels that undo them. Each label is a function that falls through to the label below it.
-- The drivers differ in the test that they put to the pointers (`IS_ERR` or `!`) and in what they
-- do before and behind the sequence.
use linux_driver_development.Base.{Bool, List, if◌then◌else◌, nonzero, pos, ℤ, ◌∷◌}
use linux_driver_development.Kernel.{
  Log, Os, Ptr, Resource, acquire, acquire_on, cdev, device_class, device_node, enomem, is_valid,
  region, release, release_on,
}

pub free_device_nr : ℤ → Log → ℤ × Log
free_device_nr status log = (status, release region ∷ log)

pub delete_cdev : ℤ → Log → ℤ × Log
unfolding free_device_nr
delete_cdev status log = free_device_nr status (release_on region cdev ∷ log)

unfoldable pub delete_class : ℤ → Log → ℤ × Log
unfolding delete_cdev
delete_class status log = delete_cdev status (release device_class ∷ log)

-- `failed` is the test on the pointers; `last` is what follows in `my_init`.
module _ (failed : Ptr → Bool) (os : Os) (last : Log → ℤ × Log) where
  -- The call of device_create and what follows it.
  pub create_device : Log → ℤ × Log
  unfolding delete_class
  create_device log =
      if failed os.device_create
      then delete_class (pos enomem) log
      else last
          (if is_valid os.device_create then acquire_on device_class device_node ∷ log else log)

  -- The call of class_create and what follows it.
  pub create_class : Log → ℤ × Log
  unfolding create_device delete_cdev
  create_class log =
      if failed os.class_create
      then delete_cdev (pos enomem) log
      else create_device (if is_valid os.class_create then acquire device_class ∷ log else log)

  unfoldable pub register : Log → ℤ × Log
  unfolding create_class free_device_nr
  register log =
      if nonzero os.alloc_chrdev_region
      then (os.alloc_chrdev_region, log)
      else if nonzero os.cdev_add
      then free_device_nr os.cdev_add (acquire region ∷ log)
      else create_class (acquire_on region cdev ∷ acquire region ∷ log)

-- `my_exit`'s part: device_destroy, which names the class, class_destroy, cdev_del, whose device
-- numbers are still the driver's, and unregister_chrdev_region.
unfoldable pub unregister : Log → Log
unregister log =
    release region
    ∷ release_on region cdev
    ∷ release device_class
    ∷ release_on device_class device_node
    ∷ log

-- What a registered character device holds, before what was held already.
abbrev pub registered : List Resource → List Resource
registered rs = device_node ∷ device_class ∷ cdev ∷ region ∷ rs
