-- ===== src/FileOps.antt =====
-- 07_file_cdev_fops/01_file_ops/my_cdev.c: a character device over one buffer of 64 bytes, shared by
-- all who open it. `my_open` and `my_release` change no state.
pub mod Transfer
pub mod Stream
pub mod Lifecycle
pub mod OpenClose
mod Tests
use linux_driver_development.Base.{
  Bool, List, Option, [], false, if◌then◌else◌, leb, length, ltb, neg, none, pos, replicate, some,
  true, ℕ, ℤ, ◌%◌, ◌+◌, ◌-◌, ◌^◌, ◌∷◌,
}
use linux_driver_development.Registration.{register, unregister}
use linux_driver_development.Kernel.{
  Log, Os, UserAccess, acquire, buffer, copy_from_user, copy_to_user, enomem, enospc, erestartsys,
  is_null, strlen,
}

abbrev pub dev_buffer_size : ℕ
dev_buffer_size = 64

-- `size_t` and `unsigned long` have 64 bits.
abbrev pub size_mod : ℕ
size_mod = 2 ^ 64

-- `dev_buffer` and whether `dev_mutex` is held.
pub record Device : Type 0 where
  pub dev_buffer : List ℕ
  pub locked : Bool

-- `open` and `release` only log and return 0.
pub my_open : Device → ℤ × Device
my_open d = (pos 0, d)

pub my_release : Device → ℤ × Device
my_release d = (pos 0, d)

abbrev pub lock : Device → Device
lock d = record d { locked = true }

abbrev pub unlock : Device → Device
unlock d = record d { locked = false }

-- `(count + *pOffset > strlen(dev_buffer)) ? (strlen(dev_buffer) - *pOffset) : count`, in `size_t`.
unfoldable pub read_size : ℕ → ℕ → ℕ → ℕ
read_size len off count =
    if ltb len ((count + off) % size_mod) then (len + size_mod - off) % size_mod else count

-- What a read returns: its result, the bytes delivered, the new `*pOffset` and the device.
pub record ReadReply : Type 0 where
  pub result : ℤ
  pub delivered : List ℕ
  pub offset : ℕ
  pub device : Device

-- `my_read`; `none` if it reads beyond the buffer, in `strlen` or in `copy_to_user`.
unfoldable pub my_read : UserAccess → Device → ℕ → ℕ → Option ReadReply
unfolding copy_to_user
my_read u d off count =
    if u.interrupted
    then some (record { result = neg (pos erestartsys); delivered = []; offset = off; device = d })
    else elim (strlen d.dev_buffer) [
      | none ↦ none
      | some len ↦ elim (copy_to_user u (lock d).dev_buffer off (read_size len off count)) [
        | none ↦ none
        | some bytes ↦
            let n = read_size len off count in
            let copied = n - u.not_copied n in
            some (record {
              result = pos copied;
              delivered = bytes;
              offset = off + copied;
              device = unlock (lock d);
            })
      ]
    ]

-- What a write returns: its result, the new `*pOffset` and the device.
pub record WriteReply : Type 0 where
  pub result : ℤ
  pub offset : ℕ
  pub device : Device

-- The number of bytes that a write at an offset below the buffer's size takes.
unfoldable pub write_size : ℕ → ℕ → ℕ
write_size off count = if ltb (dev_buffer_size - off) count then dev_buffer_size - off else count

-- `my_write` of the bytes `src`, so `count` is their number.
unfoldable pub my_write : UserAccess → Device → ℕ → List ℕ → WriteReply
unfolding copy_from_user
my_write u d off src =
    if u.interrupted
    then record { result = neg (pos erestartsys); offset = off; device = d }
    else if leb dev_buffer_size off
    then record { result = neg (pos enospc); offset = off; device = unlock (lock d) }
    else (let n = write_size off (length src) in
        let copied = n - u.not_copied n in
        record {
          result = pos copied;
          offset = off + copied;
          device = unlock (record (lock d) {
            dev_buffer = copy_from_user u d.dev_buffer off src n;
            locked = true;
          });
        })

-- `my_init`: its status and the calls made.
unfoldable pub my_init : Os → ℤ × Log
unfolding register
my_init os =
    if os.alloc buffer
    then register is_null os (λ log. (pos 0, log)) (acquire buffer ∷ [])
    else (neg (pos enomem), [])

-- The device after the `memset` of `my_init`.
abbrev pub cleared : Device
cleared = record { dev_buffer = replicate dev_buffer_size 0; locked = false }

unfoldable pub my_exit : Log → Log
unfolding unregister
my_exit log = unregister log
