-- ===== src/PrivateData.antt =====
-- 07_file_cdev_fops/02_private_data/my_cdev.c: every open file has a buffer of its own. The file
-- operations take no notice of the offset.
pub mod Safety
pub mod Isolation
pub mod Text
pub mod Program
pub mod Prints
pub mod Client
mod Tests
use linux_driver_development.Base.{
  Bool, List, Option, [], false, if◌then◌else◌, leb, length, ltb, neg, none, pos, replicate, some,
  true, ℕ, ℤ, ◌-◌, ◌==◌,
}
use linux_driver_development.Kernel.{
  Log, Os, UserAccess, copy_from_user, copy_to_user, einval, enomem, erestartsys, is_null, strlen,
}
use linux_driver_development.Registration.{register, unregister}

abbrev pub dev_buffer_size : ℕ
dev_buffer_size = 64

-- The private_data of the files, by number, `none` where it is NULL, and whether `dev_mutex` is held.
pub record Files : Type 0 where
  pub private_data : ℕ → Option (List ℕ)
  pub locked : Bool

-- The private_data of one file changed.
abbrev pub put : ℕ → Option (List ℕ) → Files → Files
put f b s = record s { private_data = λ g. if g == f then b else s.private_data g }

abbrev pub lock : Files → Files
lock s = record s { locked = true }

abbrev pub unlock : Files → Files
unlock s = record s { locked = false }

-- `my_open` of the file f; the first argument says whether kzalloc returns memory.
unfoldable pub my_open : Bool → ℕ → Files → ℤ × Files
my_open allocated f s =
    if allocated
    then (pos 0, put f (some (replicate dev_buffer_size 0)) s)
    else (neg (pos enomem), s)

-- `my_release`; the file and its private_data are gone with it.
unfoldable pub my_release : ℕ → Files → ℤ × Files
my_release f s = (pos 0, put f none s)

-- `(count > strlen(dev_buffer)) ? strlen(dev_buffer) : count`
unfoldable pub read_size : ℕ → ℕ → ℕ
read_size len count = if ltb len count then len else count

-- What a file operation returns, the bytes it delivers and the files afterwards.
pub record Reply : Type 0 where
  pub result : ℤ
  pub delivered : List ℕ
  pub files : Files

-- `my_read`; `none` if it reads beyond the buffer.
unfoldable pub my_read : UserAccess → ℕ → ℕ → Files → Option Reply
unfolding copy_to_user strlen read_size
my_read u f count s = elim (s.private_data f) [
  | none ↦ some (record { result = neg (pos einval); delivered = []; files = s })
  | some dev_buffer ↦
      if u.interrupted
      then some (record { result = neg (pos erestartsys); delivered = []; files = s })
      else elim (strlen dev_buffer) [
        | none ↦ none
        | some len ↦ elim (copy_to_user u dev_buffer 0 (read_size len count)) [
          | none ↦ none
          | some bytes ↦
              let n = read_size len count in
              some (record {
                result = pos (n - u.not_copied n);
                delivered = bytes;
                files = unlock (lock s);
              })
        ]
      ]
]

-- `count > DEV_BUFFER_SIZE ? DEV_BUFFER_SIZE : count`
unfoldable pub write_size : ℕ → ℕ
write_size count = if ltb dev_buffer_size count then dev_buffer_size else count

-- `my_write` of the bytes `src`; `none` if it writes beyond the buffer.
unfoldable pub my_write : UserAccess → ℕ → List ℕ → Files → Option Reply
unfolding copy_from_user write_size
my_write u f src s = elim (s.private_data f) [
  | none ↦ some (record { result = neg (pos einval); delivered = []; files = s })
  | some dev_buffer ↦
      if u.interrupted
      then some (record { result = neg (pos erestartsys); delivered = []; files = s })
      else (let n = write_size (length src) in
          if leb n (length dev_buffer)
          then some (record {
            result = pos (n - u.not_copied n);
            delivered = [];
            files = unlock (put f (some (copy_from_user u dev_buffer 0 src n)) (lock s));
          })
          else none)
]

unfoldable pub my_init : Os → ℤ × Log
unfolding register
my_init os = register is_null os (λ log. (pos 0, log)) []

unfoldable pub my_exit : Log → Log
unfolding unregister
my_exit log = unregister log
