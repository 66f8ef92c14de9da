-- ===== src/PrivateData/Prints.antt =====
-- What the programs that share PrivateData.Program print around a write and a read that work.
use linux_driver_development.PrivateData.Text.{my_write-stored, stored}
use linux_driver_development.Base.{
  List, Option, [], ap, arith, drop, length, length-append, pos, refl, replicate, some, suc, zero,
  ℕ, ◌++◌, ◌+◌, ◌-◌, ◌<◌, ◌∙◌, ◌∷◌, ◌≡◌,
}
use linux_driver_development.Kernel.{
  NoZero, copy_to_user, patch, smooth, strlen-append, take-all, take-append_le, text_of,
}
use linux_driver_development.PrivateData.{
  Files, dev_buffer_size, my_read, my_release, my_write, read_size, unlock,
}
use linux_driver_development.PrivateData.Program.{
  Message, Outcome, close_fd, closed, read_bytes, reading, say,
}

drop-zeros : (n m : ℕ) → n < m → drop {A = ℕ} n (replicate m 0) ≡ 0 ∷ replicate (m - n - 1) 0
drop-zeros n zero h = absurd (omega arith)
drop-zeros zero (suc m) h = ap {A = ℕ} (λ k. 0 ∷ replicate k 0) (omega arith)
drop-zeros (suc n) (suc m) h =
    drop-zeros n m (omega arith) ∙ ap {A = ℕ} (λ k. 0 ∷ replicate k 0) (omega arith)

-- What stands behind a short text in a buffer that was all zeros.
abbrev pub zeros_behind : List ℕ → List ℕ
zeros_behind text = replicate (63 - length text) 0

pub patch-zeros :
    (text : List ℕ)
    → length text < dev_buffer_size
    → patch (replicate dev_buffer_size 0) 0 text ≡ text ++ (0 ∷ zeros_behind text)
unfolding patch
patch-zeros text h =
    let start : 0 + length text ≡ length text = omega arith in
    let left : 64 - length text - 1 ≡ 63 - length text = omega arith in
    ap (λ end. text ++ end)
      (ap (λ k. drop k (replicate 64 0)) start
        ∙ drop-zeros (length text) 64 h
        ∙ ap (λ k. 0 ∷ replicate k 0) left)

my_read-text :
    (f : ℕ) (s : Files) (text rest : List ℕ)
    → s.private_data f ≡ some (text ++ (0 ∷ rest))
    → NoZero text
    → length text < dev_buffer_size
    → my_read smooth f dev_buffer_size s
      ≡ some (record { result = pos (length text); delivered = text; files = unlock s })
unfolding my_read copy_to_user read_size
my_read-text f s text rest b n h =
    let whole = take-append_le (length text) text (0 ∷ rest) (omega arith) in
    let all = take-all (length text) text (omega arith) in
    let len = strlen-append text rest n in
    ground (arith, b, whole, all, len, length-append text (0 ∷ rest))

-- What follows in the program prints these messages from here on, and returns 0.
abbrev pub Prints : (Files → Option Outcome) → Files → List Message → Type 0
Prints next s ms = (o : Outcome) × (next s ≡ some o) × (o.messages ≡ ms) × (o.status ≡ pos 0)

pub close_fd-Prints : (f : ℕ) (s : Files) → Prints (λ s. some (close_fd f s)) s (closed ∷ [])
unfolding close_fd my_release
close_fd-Prints f s = (close_fd f s, refl, refl, refl)

-- A read of a buffer that starts with a text and a zero byte puts the text at the start of the
-- program's buffer, and nothing behind it.
pub reading-Prints :
    (f : ℕ) (before : List ℕ) (next : Files → Option Outcome) (s : Files) (ms : List Message)
    (text rest : List ℕ)
    → s.private_data f ≡ some (text ++ (0 ∷ rest))
    → NoZero text
    → length text < dev_buffer_size
    → Prints next (unlock s) ms
    → Prints
        (reading smooth f before next)
        s
        (read_bytes (pos (length text)) (text_of (patch before 0 text)) ∷ ms)
unfolding reading
reading-Prints f before next s ms text rest b n h (o, e, m, z) = (
  say (read_bytes (pos (length text)) (text_of (patch before 0 text))) o,
  rw (reading, my_read-text f s text rest b n h) (ground (arith, e)),
  ground (arith, m),
  z,
)

-- A write of a short text to a fresh buffer leaves the text and zeros.
pub my_write-text :
    (f : ℕ) (text : List ℕ) (s : Files)
    → length text < dev_buffer_size
    → s.private_data f ≡ some (replicate dev_buffer_size 0)
    → let r = stored f text (replicate dev_buffer_size 0) s in
      (my_write smooth f text s ≡ some r)
      × (r.files.private_data f ≡ some (text ++ (0 ∷ zeros_behind text)))
unfolding patch
my_write-text f text s h b = (
  my_write-stored smooth f text (replicate dev_buffer_size 0) s (λ n. refl) refl b refl h,
  ground (arith, patch-zeros text h),
)
