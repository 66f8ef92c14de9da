-- ===== src/Spinlock/Read.antt =====
-- Reads and interrupts of 19_kernel_synchronization/02_spinlock/my_spinlock.c.
use mathlib.Core.List.{append-nil}
use linux_driver_development.Base.{
  List, arith, drop, length, length-append, length-drop, min, pos, refl, some, take, ℕ, ◌++◌, ◌+◌,
  ◌-◌, ◌∙◌, ◌≡◌, ◌≤◌,
}
use linux_driver_development.Kernel.{
  NoZero, UserAccess, length-snprintf, length-take_le, snprintf, strlen, strlen-le, strlen-snprintf,
  take-append_all, take-snprintf,
}
use linux_driver_development.Spinlock.{Shared, isr, my_read, shared_buffer_size}

-- The buffer has 64 bytes and ends its text of `shared_len` bytes with a zero byte.
pub record IsValid (s : Shared) : Type 0 where
  pub size : length s.shared_buffer ≡ shared_buffer_size
  pub text : strlen s.shared_buffer ≡ some s.shared_len

-- The interrupt never reads beyond the buffer, if the printed text has no zero byte: it leaves a
-- valid buffer with the first 63 bytes of the text of the counter, and counts up.
pub isr-IsValid :
    (format : ℕ → List ℕ) (s : Shared)
    → NoZero (format s.count)
    → IsValid s
    → (t : Shared) × (isr format s ≡ some t)
      × IsValid t
      × (take t.shared_len t.shared_buffer ≡ take 63 (format s.count))
      × (t.count ≡ s.count + 1)
unfolding isr
isr-IsValid format s nz v =
    let text = format s.count in
    let buf = snprintf s.shared_buffer shared_buffer_size text in
    let len = min (shared_buffer_size - 1) (length text) in
    let found = strlen-snprintf s.shared_buffer shared_buffer_size text nz in
    (
      record { shared_buffer = buf; shared_len = len; count = s.count + 1 },
      ground arith,
      record {
        size =
            length-snprintf s.shared_buffer shared_buffer_size text (omega arith) (omega arith)
            ∙ v.size;
        text = found;
      },
      take-snprintf s.shared_buffer shared_buffer_size text,
      refl,
    )

-- If interrupts between the critical section and the copy leave a text at least as long, a complete
-- copy delivers the text of the critical section, and behind it as much of what the stack held
-- before as the new text is longer.
pub my_read_leaks_stack :
    (u : UserAccess) (stack : List ℕ) (s t : Shared)
    → ((n : ℕ) → u.not_copied n ≡ 0)
    → length stack ≡ shared_buffer_size
    → IsValid s
    → IsValid t
    → s.shared_len ≤ t.shared_len
    → my_read u stack s t
      ≡ some (
        pos t.shared_len,
        take s.shared_len s.shared_buffer
            ++ take (t.shared_len - s.shared_len) (drop s.shared_len stack),
      )
unfolding my_read
my_read_leaks_stack u stack s t all h v w le =
    let old = take s.shared_len s.shared_buffer in
    let more = t.shared_len - s.shared_len in
    let small = strlen-le s.shared_buffer v.text in
    let small' = strlen-le t.shared_buffer w.text in
    let size : length old ≡ s.shared_len =
      length-take_le s.shared_len s.shared_buffer (omega arith) in
    ground (
      arith,
      all t.shared_len,
      take-append_all more old (drop s.shared_len stack),
      length-append old (drop s.shared_len stack),
      length-drop s.shared_len stack,
    )

-- A read with no interrupt between its critical section and its copy, and whose copy is complete,
-- delivers the shared text and returns its length.
pub my_read_text :
    (u : UserAccess) (stack : List ℕ) (s : Shared)
    → ((n : ℕ) → u.not_copied n ≡ 0)
    → length stack ≡ shared_buffer_size
    → IsValid s
    → my_read u stack s s ≡ some (pos s.shared_len, take s.shared_len s.shared_buffer)
my_read_text u stack s all h v = ground (
  arith,
  my_read_leaks_stack u stack s s all h v v (omega arith),
  append-nil (take s.shared_len s.shared_buffer),
)
