-- ===== src/SharedCdev/Atomic.antt =====
-- What the calls of 19_kernel_synchronization/01_mutex/test/my_cdev.c do if each runs alone: the
-- device of 07_file_cdev_fops/01_file_ops/my_cdev.c, one call after another.
use linux_driver_development.Kernel.{UserAccess, copy_from_user, copy_to_user, patch, strlen}
use linux_driver_development.Base.{
  List, Option, [], arith, drop, false, leb, length, none, replicate, some, take, true, ℕ, ◌+◌, ◌-◌,
  ◌<◌, ◌∷◌, ◌≡◌, ◌≤◌,
}
use linux_driver_development.FileOps.{
  Device, ReadReply, WriteReply, dev_buffer_size, my_read, my_write, read_size, write_size,
}
use linux_driver_development.SharedCdev.{
  Answer, Done, Op, full_answer, interrupted_answer, read, read_done, received, write, write_done,
}

abbrev pub device : List ℕ → Device
device buf = record { dev_buffer = buf; locked = false }

abbrev pub read_answer : Option ReadReply → Option Answer
read_answer none = none
read_answer (some r) =
    some (record { result = r.result; delivered = r.delivered; offset = r.offset })

abbrev pub write_answer : WriteReply → Answer
write_answer r = record { result = r.result; delivered = []; offset = r.offset }

-- A call alone, at an offset and with the buffer as it is: its answer and the buffer afterwards. A
-- read leaves the buffer as it is.
unfoldable pub atomic : Op → ℕ → List ℕ → Option Answer × List ℕ
unfolding my_read my_write
atomic (read u count) off buf = (read_answer (my_read u (device buf) off count), buf)
atomic (write u src) off buf =
    let r = my_write u (device buf) off src in (some (write_answer r), r.device.dev_buffer)

-- The buffer after the calls of a list, newest first, from the cleared buffer on.
unfoldable pub after : List Done → List ℕ
unfolding atomic
after [] = replicate dev_buffer_size 0
after (d ∷ ds) = (atomic d.op d.start (after ds)).1

-- Every call of the list has answered what it answers alone, after the calls before it.
abbrev pub Sequential : List Done → Type 0
Sequential [] = Unit
Sequential (d ∷ ds) = (d.answer ≡ (atomic d.op d.start (after ds)).0) × Sequential ds

pub atomic_interrupted_read :
    (u : UserAccess) (count off : ℕ) (buf : List ℕ)
    → u.interrupted ≡ true
    → atomic (read u count) off buf ≡ (some (interrupted_answer off), buf)
unfolding atomic my_read
atomic_interrupted_read u count off buf i = ground arith

pub atomic_interrupted_write :
    (u : UserAccess) (src : List ℕ) (off : ℕ) (buf : List ℕ)
    → u.interrupted ≡ true
    → atomic (write u src) off buf ≡ (some (interrupted_answer off), buf)
unfolding atomic my_write
atomic_interrupted_write u src off buf i = ground arith

pub atomic_unterminated :
    (u : UserAccess) (count off : ℕ) (buf : List ℕ)
    → u.interrupted ≡ false
    → strlen buf ≡ none
    → atomic (read u count) off buf ≡ (none, buf)
unfolding atomic my_read
atomic_unterminated u count off buf i n = ground arith

pub atomic_outside :
    (u : UserAccess) (count off : ℕ) (buf : List ℕ) (len : ℕ)
    → u.interrupted ≡ false
    → strlen buf ≡ some len
    → leb (off + read_size len off count) (length buf) ≡ false
    → atomic (read u count) off buf ≡ (none, buf)
unfolding atomic my_read copy_to_user
atomic_outside u count off buf len i e out = ground arith

pub atomic_read :
    (u : UserAccess) (count off : ℕ) (buf : List ℕ) (len : ℕ)
    → u.interrupted ≡ false
    → strlen buf ≡ some len
    → off + read_size len off count ≤ length buf
    → let n = read_size len off count in
      atomic (read u count) off buf
      ≡ (some (read_done off (n - u.not_copied n) (take (n - u.not_copied n) (drop off buf))), buf)
unfolding atomic my_read copy_to_user
atomic_read u count off buf len i e fits = ground arith

pub atomic_full :
    (u : UserAccess) (src : List ℕ) (off : ℕ) (buf : List ℕ)
    → u.interrupted ≡ false
    → dev_buffer_size ≤ off
    → atomic (write u src) off buf ≡ (some (full_answer off), buf)
unfolding atomic my_write
atomic_full u src off buf i h = ground arith

pub atomic_write :
    (u : UserAccess) (src : List ℕ) (off : ℕ) (buf : List ℕ)
    → u.interrupted ≡ false
    → off < dev_buffer_size
    → let n = write_size off (length src) in
      atomic (write u src) off buf
      ≡ (some (write_done off (n - u.not_copied n)), patch buf off (received u src n))
unfolding atomic my_write copy_from_user
atomic_write u src off buf i h = ground arith
