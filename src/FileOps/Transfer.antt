-- ===== src/FileOps/Transfer.antt =====
-- One `my_read` or `my_write` of 07_file_cdev_fops/01_file_ops/my_cdev.c.
use linux_driver_development.Base.{
  List, arith, drop, false, if◌then◌else◌, length, length-append, length-replicate, length-take,
  min, neg, none, pos, replicate, some, take, true, ℕ, ◌++◌, ◌+◌, ◌-◌, ◌<◌, ◌^◌, ◌≡◌, ◌≤◌, ◌⊎◌,
}
use linux_driver_development.Kernel.{
  Bounded, UserAccess, drop-patch, enospc, erestartsys, length-patch, strlen, strlen-le, take-patch,
}
use linux_driver_development.FileOps.{
  Device, dev_buffer_size, my_read, my_write, read_size, size_mod, write_size,
}

abbrev pub IsValid : Device → Type 0
IsValid d = (length d.dev_buffer ≡ dev_buffer_size) × (d.locked ≡ false)

pub write_size-le :
    (off count : ℕ) → (write_size off count ≤ count) × (write_size off count ≤ 64 - off)
unfolding write_size
write_size-le off count = ground arith

write_size-eq_min : (off count : ℕ) → write_size off count ≡ min count (64 - off)
unfolding write_size
write_size-eq_min off count = ground arith

read_size-eq_min :
    (len off count : ℕ)
    → off ≤ len
    → len < size_mod
    → count + off < size_mod
    → read_size len off count ≡ min count (len - off)
unfolding read_size
read_size-eq_min len off count h k s = ground arith

read_size_wraps :
    (len off count : ℕ)
    → len < off
    → off < 2 ^ 63
    → count + off < size_mod
    → read_size len off count ≡ size_mod - (off - len)
unfolding read_size
read_size_wraps len off count h k s = ground arith

-- The bytes that copy_from_user puts in are as many as it was asked for.
pub length-received :
    (u : UserAccess) (src : List ℕ) (n : ℕ)
    → Bounded u
    → n ≤ length src
    → length (take (n - u.not_copied n) src ++ replicate (u.not_copied n) 0) ≡ n
length-received u src n b h = omega (
  arith,
  b n,
  length-append (take (n - u.not_copied n) src) (replicate (u.not_copied n) 0),
  length-take (n - u.not_copied n) src,
  length-replicate {A = ℕ} (u.not_copied n) 0,
)

-- `my_write` keeps the device valid: the buffer has 64 bytes, and the mutex is given back.
pub my_write-IsValid :
    (u : UserAccess) (d : Device) (off : ℕ) (src : List ℕ)
    → Bounded u
    → IsValid d
    → IsValid (my_write u d off src).device
unfolding my_write
my_write-IsValid u d off src b v =
    let n = write_size off (length src) in
    ground (
      arith,
      length-received u src n b (write_size-le off (length src)).0,
      write_size-le off (length src),
      length-patch d.dev_buffer off (take (n - u.not_copied n) src ++ replicate (u.not_copied n) 0),
    )

-- A write that gets the lock, at an offset inside the buffer of a valid device, takes as many bytes
-- as are offered and fit, less those that copy_from_user fails to copy; it returns that number and
-- moves the offset by it. Bytes before the offset stay, the taken bytes follow, zeros stand where
-- the copy failed, and the bytes behind them stay.
pub my_write_effect :
    (u : UserAccess) (d : Device) (off : ℕ) (src : List ℕ)
    → Bounded u
    → IsValid d
    → u.interrupted ≡ false
    → off < dev_buffer_size
    → let n = min (length src) (dev_buffer_size - off) in
      let copied = n - u.not_copied n in
      let r = my_write u d off src in
      (r.result ≡ pos copied)
      × (r.offset ≡ off + copied)
      × (take off r.device.dev_buffer ≡ take off d.dev_buffer)
      × (drop off r.device.dev_buffer
          ≡ (take copied src ++ replicate (u.not_copied n) 0) ++ drop (off + n) d.dev_buffer)
unfolding my_write
my_write_effect u d off src b v i lt =
    let n = min (length src) (dev_buffer_size - off) in
    let new = take (n - u.not_copied n) src ++ replicate (u.not_copied n) 0 in
    let size : length new ≡ n = length-received u src n b (omega arith) in
    ground (
      arith,
      write_size-eq_min off (length src),
      size,
      take-patch d.dev_buffer off new (omega arith),
      drop-patch d.dev_buffer off new (omega arith),
    )

-- A write at or behind the end of the buffer that gets the lock returns -ENOSPC and changes neither
-- the offset nor the buffer; an interrupted one returns -ERESTARTSYS and changes nothing.
pub my_write_refused :
    (u : UserAccess) (d : Device) (off : ℕ) (src : List ℕ)
    → IsValid d
    → dev_buffer_size ≤ off ⊎ (u.interrupted ≡ true)
    → my_write u d off src ≡ record {
      result = if u.interrupted then neg (pos erestartsys) else neg (pos enospc);
      offset = off;
      device = d;
    }
unfolding my_write
my_write_refused u d off src v h = ground arith

-- A read that gets the lock, at an offset up to the text's length and with no overflow in the sum
-- of offset and count, stays inside the buffer: it delivers the bytes from the offset on, as many
-- as are asked for and left, less those that copy_to_user fails to copy, returns their number, moves
-- the offset by it, and leaves the device as it is.
pub my_read_within :
    (u : UserAccess) (d : Device) (off count len : ℕ)
    → Bounded u
    → IsValid d
    → u.interrupted ≡ false
    → strlen d.dev_buffer ≡ some len
    → off ≤ len
    → count + off < size_mod
    → let n = min count (len - off) in
      let copied = n - u.not_copied n in
      my_read u d off count
      ≡ some (record {
        result = pos copied;
        delivered = take copied (drop off d.dev_buffer);
        offset = off + copied;
        device = d;
      })
unfolding my_read
my_read_within u d off count len b v i s le small =
    let inside = strlen-le d.dev_buffer s in
    ground (arith, read_size-eq_min len off count le (omega arith) small, inside)

-- A read behind the text's end asks copy_to_user for a size that `size_t` subtraction has wrapped
-- round, and reaches beyond the buffer.
pub my_read_past_end :
    (u : UserAccess) (d : Device) (off count len : ℕ)
    → IsValid d
    → u.interrupted ≡ false
    → strlen d.dev_buffer ≡ some len
    → len < off
    → off < 2 ^ 63
    → count + off < size_mod
    → (read_size len off count ≡ size_mod - (off - len)) × (my_read u d off count ≡ none)
unfolding my_read
my_read_past_end u d off count len v i s lt small sum =
    ground (arith, read_size_wraps len off count lt small sum, strlen-le d.dev_buffer s)
