-- ===== src/Kernel.antt =====
-- What the drivers ask of the kernel. The kernel is not part of the repository: its answers are a
-- parameter (`Os`), and what its calls acquire and give back is written as a ledger of resources,
-- after the calls' documented contracts.
mod Ledger
mod Usercopy
mod Printf
pub use Ledger.*
pub use Usercopy.*
pub use Printf.*
unfoldable pub use Usercopy.{copy_to_user, copy_from_user, strlen, patch, snprintf}
unfoldable pub use Ledger.{ledger}
use linux_driver_development.Base.{Bool, false, min, neg, pos, true, ℕ, ℤ}

-- What a call that returns a pointer may return.
pub data Ptr : Type 0 where
  null : Ptr
  err_ptr : ℕ → Ptr
  valid : Ptr

-- The macro IS_ERR.
abbrev pub is_err : Ptr → Bool
is_err null = false
is_err (err_ptr e) = true
is_err valid = false

-- The condition `!p`.
abbrev pub is_null : Ptr → Bool
is_null null = true
is_null (err_ptr e) = false
is_null valid = false

abbrev pub is_valid : Ptr → Bool
is_valid null = false
is_valid (err_ptr e) = false
is_valid valid = true

-- The macro PTR_ERR.
abbrev pub ptr_err : Ptr → ℤ
ptr_err null = pos 0
ptr_err (err_ptr e) = neg (pos e)
ptr_err valid = pos 0

abbrev pub enomem : ℕ
enomem = 12

abbrev pub eio : ℕ
eio = 5

abbrev pub enodev : ℕ
enodev = 19

abbrev pub einval : ℕ
einval = 22

abbrev pub enospc : ℕ
enospc = 28

abbrev pub eagain : ℕ
eagain = 11

abbrev pub efault : ℕ
efault = 14

abbrev pub erestartsys : ℕ
erestartsys = 512

-- The answers of the kernel while one `init` function runs: a status (0 is success), a pointer, or
-- whether a pointer is not NULL.
pub record Os : Type 0 where
  pub alloc_chrdev_region : ℤ
  pub cdev_add : ℤ
  pub class_create : Ptr
  pub device_create : Ptr
  pub alloc : Resource → Bool
  pub gpio_request : Resource → ℤ
  pub gpio_to_desc : Resource → Bool
  pub gpio_direction : Resource → ℤ
  pub request_irq : ℤ
  pub kthread_run : Resource → Ptr
  -- the value of a local variable that is read before it is assigned
  pub indeterminate : ℤ

-- Every call succeeds.
abbrev pub willing : Os
willing = record {
  alloc_chrdev_region = pos 0;
  cdev_add = pos 0;
  class_create = valid;
  device_create = valid;
  alloc = λ r. true;
  gpio_request = λ r. pos 0;
  gpio_to_desc = λ r. true;
  gpio_direction = λ r. pos 0;
  request_irq = pos 0;
  kthread_run = λ r. valid;
  indeterminate = pos 0;
}

-- Every copy succeeds.
abbrev pub smooth : UserAccess
smooth = record { interrupted = false; not_copied = λ n. 0 }

-- Every copy stops before its last byte.
abbrev pub short : UserAccess
short = record { interrupted = false; not_copied = λ n. min n 1 }
