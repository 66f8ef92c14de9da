-- ===== src/FileOps/Stream.antt =====
-- Several transfers in a row on 07_file_cdev_fops/01_file_ops/my_cdev.c.
use mathlib.Core.List.{append-nil}
use linux_driver_development.Base.{
  List, Option, [], arith, drop, false, length, min, none, pos, some, take, ℕ, ◌++◌, ◌+◌, ◌-◌, ◌<◌,
  ◌^◌, ◌∷◌, ◌≡◌, ◌≤◌,
}
use linux_driver_development.Kernel.{
  Bounded, NoZero, UserAccess, drop-all, drop-drop, strlen, strlen-NoZero, strlen-append_text,
  strlen-le, take-add, take-all, take-append_all,
}
use linux_driver_development.FileOps.{Device, dev_buffer_size, my_read, my_write, size_mod}
use linux_driver_development.FileOps.Transfer.{
  IsValid, my_read_within, my_write-IsValid, my_write_effect,
}

-- Reads one after another on one open file, each with the kernel's answers to it and with its count:
-- all the bytes delivered, and the offset at the end.
pub reads : Device → ℕ → List (UserAccess × ℕ) → Option (List ℕ × ℕ)
reads d off [] = some ([], off)
reads d off ((u, count) ∷ later) = elim (my_read u d off count) [
  | none ↦ none
  | some r ↦ elim (reads r.device r.offset later) [
    | none ↦ none
    | some (bytes, end) ↦ some (r.delivered ++ bytes, end)
  ]
]

-- Each read gets the lock, and asks for so few bytes that the count and an offset in the buffer do not
-- overflow in their sum.
abbrev pub Moderate : List (UserAccess × ℕ) → Type 0
Moderate [] = Unit
Moderate ((u, count) ∷ later) =
    (Bounded u × (u.interrupted ≡ false) × (count < 2 ^ 63)) × Moderate later

-- On a device whose buffer has its 64 bytes, a zero byte among them, and whose mutex is free: reads in a
-- row that are not interrupted, from an offset up to the text's length on, with any counts below
-- 2 ^ 63 and however much of each single copy fails, never leave the buffer; together they deliver the
-- bytes between the first offset and the last without gap or repetition, and stay in the text.
pub reads-contiguous :
    (d : Device) (off len : ℕ) (requests : List (UserAccess × ℕ))
    → IsValid d
    → strlen d.dev_buffer ≡ some len
    → off ≤ len
    → Moderate requests
    → (end : ℕ) × (reads d off requests ≡ some (take (end - off) (drop off d.dev_buffer), end))
      × (off ≤ end)
      × (end ≤ len)
unfolding reads
reads-contiguous d off len [] v s le m = (off, ground arith, omega arith, le)
reads-contiguous d off len ((u, count) ∷ later) v s le m =
    let (b, i, small) = m.0 in
    let n = min count (len - off) in
    let copied = n - u.not_copied n in
    let inside = strlen-le d.dev_buffer s in
    let first = my_read_within u d off count len b v i s le (omega arith) in
    let (end, rest, lo, hi) = reads-contiguous d (off + copied) len later v s (omega arith) m.1 in
    let joined = take-add copied (end - (off + copied)) (drop off d.dev_buffer) in
    let shifted = drop-drop off copied d.dev_buffer in (end, ground arith, omega arith, hi)

-- The buffer after a write to its start of which every byte is copied.
my_write_at_start :
    (u : UserAccess) (d : Device) (src : List ℕ)
    → ((n : ℕ) → u.not_copied n ≡ 0)
    → IsValid d
    → u.interrupted ≡ false
    → length src ≤ dev_buffer_size
    → (my_write u d 0 src).device.dev_buffer ≡ src ++ drop (length src) d.dev_buffer
my_write_at_start u d src all v i fits =
    let n = min (length src) (dev_buffer_size - 0) in
    let (_, _, _, tail) =
      my_write_effect u d 0 src (λ m. rw (all m) (omega arith)) v i (omega arith) in
    ground (arith, all n, take-all (n - 0) src (omega arith), append-nil src)

-- On a device whose buffer has its 64 bytes and whose mutex is free, with no signal in between and no
-- copy that fails: a text without zero bytes, not longer than the buffer, that is written to its
-- start, and behind which a zero byte stands in the buffer k bytes further on, so that it is shorter than
-- the buffer, comes back from a read at the start with those k bytes of old text behind it, if the
-- read asks for at least as many bytes, and for a number that fits size_t.
pub my_read-my_write :
    (u : UserAccess) (d : Device) (src : List ℕ) (count k : ℕ)
    → ((n : ℕ) → u.not_copied n ≡ 0)
    → IsValid d
    → u.interrupted ≡ false
    → NoZero src
    → length src ≤ dev_buffer_size
    → strlen (drop (length src) d.dev_buffer) ≡ some k
    → length src + k ≤ count
    → count < size_mod
    → let d' = (my_write u d 0 src).device in
      my_read u d' 0 count
      ≡ some (record {
        result = pos (length src + k);
        delivered = src ++ take k (drop (length src) d.dev_buffer);
        offset = length src + k;
        device = d';
      })
my_read-my_write u d src count k all v i nz fits s enough small =
    let d' = (my_write u d 0 src).device in
    let b : Bounded u = λ m. rw (all m) (omega arith) in
    let len = length src + k in
    let n = min count (len - 0) in
    let stored = my_write_at_start u d src all v i fits in
    let text = strlen-append_text src (drop (length src) d.dev_buffer) nz s in
    let back =
      my_read_within u d' 0 count len b (my_write-IsValid u d 0 src b v) i (ground arith)
        (omega arith) (omega arith) in
    ground (arith, back, all n, take-append_all k src (drop (length src) d.dev_buffer))

-- After a write to the start that fills the buffer with bytes other than zero and copies all of
-- them, every read that gets the lock reads beyond the buffer: no zero byte stops `strlen`.
pub my_read_unterminated :
    (u : UserAccess) (d : Device) (src : List ℕ) (off count : ℕ)
    → ((n : ℕ) → u.not_copied n ≡ 0)
    → IsValid d
    → u.interrupted ≡ false
    → NoZero src
    → length src ≡ dev_buffer_size
    → my_read u (my_write u d 0 src).device off count ≡ none
unfolding my_read
my_read_unterminated u d src off count all v i nz full =
    let stored = my_write_at_start u d src all v i (omega arith) in
    let nothing : drop (length src) d.dev_buffer ≡ [] =
      drop-all (length src) d.dev_buffer (omega arith) in
    let scan = strlen-NoZero src nz in ground (arith, append-nil src)
