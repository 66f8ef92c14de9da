-- ===== src/Ioctl.antt =====
-- 08_ioctl/my_cdev.c: the driver with a buffer for each open file, and four commands. Its other
-- functions are the code of 07_file_cdev_fops/02_private_data/my_cdev.c again.
pub mod Commands
pub mod Client
pub mod Session
pub mod Closing
pub mod Race
mod Tests
use linux_driver_development.Base.{
  Bool, List, Option, codes, if◌then◌else◌, neg, none, pos, replicate, some, ℕ, ℤ, ◌==◌,
}
use linux_driver_development.Kernel.{Log, Os, UserAccess, efault, einval}
use linux_driver_development.PrivateData
use linux_driver_development.PrivateData.{Files, dev_buffer_size, put}

abbrev pub my_open : Bool → ℕ → Files → ℤ × Files
my_open = PrivateData.my_open

abbrev pub my_release : ℕ → Files → ℤ × Files
my_release = PrivateData.my_release

abbrev pub my_read : UserAccess → ℕ → ℕ → Files → Option PrivateData.Reply
my_read = PrivateData.my_read

abbrev pub my_write : UserAccess → ℕ → List ℕ → Files → Option PrivateData.Reply
my_write = PrivateData.my_write

abbrev pub my_init : Os → ℤ × Log
my_init = PrivateData.my_init

abbrev pub my_exit : Log → Log
my_exit = PrivateData.my_exit

-- The command numbers, which the kernel's macros _IO, _IOR and _IOW make.
pub record Codes : Type 0 where
  pub clear : ℕ
  pub say_hello : ℕ
  pub user_read : ℕ
  pub user_write : ℕ

-- What `my_ioctl` returns, the int that it writes to user space, the int that it reads from there,
-- and the files.
pub record Reply : Type 0 where
  pub result : ℤ
  pub to_user : Option ℕ
  pub from_user : Option ℕ
  pub files : Files

-- The end of the command that returns `result` and does nothing else.
abbrev pub only : ℤ → Files → Reply
only result s = record { result = result; to_user = none; from_user = none; files = s }

-- The case MYCDEV_CLEAR, which does not take the mutex.
unfoldable pub clear_buffer : ℕ → Files → Reply
clear_buffer f s = elim (s.private_data f) [
  | none ↦ only (neg (pos einval)) s
  | some dev_buffer ↦ only (pos 0) (put f (some (replicate dev_buffer_size 0)) s)
]

-- `my_ioctl` of the command `cmd` for the file f. `copies` says whether the copy of an int between
-- kernel and user space succeeds, and `value` is the int that user space has at `arg`.
unfoldable pub my_ioctl : Codes → Bool → ℕ → ℕ → ℕ → Files → Reply
unfolding clear_buffer
my_ioctl codes copies value f cmd s =
    if cmd == codes.clear
    then clear_buffer f s
    else if cmd == codes.say_hello
    then only (pos 0) s
    else if cmd == codes.user_read
    then (if copies
        then record { result = pos 0; to_user = some 0xc0ffee; from_user = none; files = s }
        else only (neg (pos efault)) s)
    else if cmd == codes.user_write
    then (if copies
        then record { result = pos 0; to_user = none; from_user = some value; files = s }
        else only (neg (pos efault)) s)
    else only (neg (pos einval)) s
