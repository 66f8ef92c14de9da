-- ===== src/PrivateData/Text.antt =====
-- Writing and reading one file of 07_file_cdev_fops/02_private_data/my_cdev.c while others are used.
use linux_driver_development.Base.{
  List, [], arith, drop, false, length, pos, some, take, ℕ, ◌++◌, ◌-◌, ◌<◌, ◌≡◌, ◌≤◌,
}
use linux_driver_development.Kernel.{
  NoZero, UserAccess, copy_from_user, copy_to_user, patch, strlen-append_text, strlen-le, take-all,
  take-append_le,
}
use linux_driver_development.PrivateData.{
  Files, Reply, dev_buffer_size, my_read, my_write, put, read_size, unlock, write_size,
}
use linux_driver_development.PrivateData.Safety.{IsValid, tail-strlen}
use linux_driver_development.PrivateData.Isolation.{
  Elsewhere, Request, serve_all, serve_all-private_data,
}
use mathlib.Core.List.{append-nil}

-- The answer of a write that puts the whole text at the start of the buffer `buf` of the file f.
abbrev pub stored : ℕ → List ℕ → List ℕ → Files → Reply
stored f text buf s = record {
  result = pos (length text);
  delivered = [];
  files = unlock (put f (some (text ++ drop (length text) buf)) s);
}

-- What a complete write of a short text leaves in the buffer.
pub my_write-stored :
    (u : UserAccess) (f : ℕ) (text buf : List ℕ) (s : Files)
    → ((n : ℕ) → u.not_copied n ≡ 0)
    → u.interrupted ≡ false
    → s.private_data f ≡ some buf
    → length buf ≡ dev_buffer_size
    → length text < dev_buffer_size
    → my_write u f text s ≡ some (stored f text buf s)
unfolding my_write copy_from_user patch write_size
my_write-stored u f text buf s all i e full h =
    ground (arith, e, i, all (length text), take-all (length text - 0) text, append-nil text, full)

-- The answer of a read that delivers the first `count` bytes of a text.
abbrev pub first_bytes : ℕ → List ℕ → Files → Reply
first_bytes count text s = record {
  result = pos count;
  delivered = take count text;
  files = unlock s;
}

-- A text without zero bytes, shorter than the buffer, that is written whole to an open file of valid
-- files is put at the start of its buffer, and comes back from a read of that file, up to the number
-- of bytes asked for, after any sequence of requests to other files that stayed inside the buffers;
-- and as reads take no notice of the offset, it comes back from a second read alike. The copies of
-- both are complete, and no signal interrupts them; the read asks for no more than the text's length.
pub my_read-serve_all-my_write :
    (u : UserAccess) (f count : ℕ) (text buf : List ℕ) (rs : List (ℕ × Request)) (s s' : Files)
    → ((n : ℕ) → u.not_copied n ≡ 0)
    → u.interrupted ≡ false
    → IsValid s
    → s.private_data f ≡ some buf
    → NoZero text
    → length text < dev_buffer_size
    → count ≤ length text
    → Elsewhere f rs
    → serve_all rs (stored f text buf s).files ≡ some s'
    → (my_write u f text s ≡ some (stored f text buf s))
      × (my_read u f count s' ≡ some (first_bytes count text s'))
      × (my_read u f count (first_bytes count text s').files ≡ some (first_bytes count text s'))
unfolding my_read copy_to_user read_size
my_read-serve_all-my_write u f count text buf rs s s' all i v e nz h c el r =
    let kept = serve_all-private_data f rs (stored f text buf s).files s' el r in
    let (k, t) = tail-strlen buf (length text) (v f buf e) h in
    let len = strlen-append_text text (drop (length text) buf) nz t in
    let fits = strlen-le (text ++ drop (length text) buf) len in
    let start = take-append_le count text (drop (length text) buf) c in
    let found : s'.private_data f ≡ some (text ++ drop (length text) buf) = ground (arith, kept) in
    (
      my_write-stored u f text buf s all i e (v f buf e).0 h,
      ground (arith, found, i, len, fits, start, all count),
      ground (arith, found, i, len, fits, start, all count),
    )
