-- ===== src/PrivateData/Client.antt =====
-- 07_file_cdev_fops/02_private_data/test1.c, run against the driver beside it.
use linux_driver_development.PrivateData.Text.{stored}
use linux_driver_development.Base.{
  Bool, List, Option, [], ap, arith, drop, if◌then◌else◌, is_neg, length, negsuc, pos, replicate,
  some, true, ℕ, ◌++◌, ◌+◌, ◌<◌, ◌∙◌, ◌∷◌, ◌≡◌,
}
use linux_driver_development.Kernel.{
  NoZero, UserAccess, holds, patch, smooth, text_of, text_of-append,
}
use linux_driver_development.PrivateData.{Files, dev_buffer_size, my_open, unlock}
use linux_driver_development.PrivateData.Program.{
  Outcome, close_fd, closed, failed, opened, read_bytes, reading, say, write_text, written,
}
use linux_driver_development.PrivateData.Prints.{
  close_fd-Prints, my_write-text, reading-Prints, zeros_behind,
}
use mathlib.Core.Option

-- How the kernel answers the program's calls: whether kzalloc returns memory, and the copies of its
-- write and its read.
pub record Answers : Type 0 where
  pub allocated : Bool
  pub writing : UserAccess
  pub one_read : UserAccess

abbrev pub works : Answers
works = record { allocated = true; writing = smooth; one_read = smooth }

-- `main` with argv[2] = `text`, for the file f. `junk` is what the program's buffer, which is not
-- initialised, holds.
unfoldable pub main : Answers → List ℕ → ℕ → List ℕ → Files → Option Outcome
unfolding write_text reading close_fd
main a junk f text s =
    let (ret, s') = my_open a.allocated f s in
    if is_neg ret
    then some (record { messages = failed ∷ []; status = negsuc 0; files = s' })
    else Option.map (say opened)
        (write_text a.writing f text (reading a.one_read f junk (λ s. some (close_fd f s))) s')

-- What printf finds in the buffer when a read has put the text at its start.
text_of-patch :
    (junk text : List ℕ)
    → NoZero text
    → text_of (patch junk 0 text)
      ≡ Option.map (λ more. text ++ more) (text_of (drop (length text) junk))
unfolding patch
text_of-patch junk text n =
    let start : 0 + length text ≡ length text = omega arith in
    ap (λ k. text_of (text ++ drop k junk)) start ∙ text_of-append text (drop (length text) junk) n

-- The program's text, without zero bytes and shorter than the buffer, comes back whole where every call
-- works; but what it prints is the text and then what the buffer, which nobody initialised, held
-- behind it up to a zero byte, and without such a byte printf reads beyond the buffer.
pub main-junk :
    (f : ℕ) (junk text : List ℕ) (s : Files)
    → NoZero text
    → length text < dev_buffer_size
    → (o : Outcome) × (main works junk f text s ≡ some o)
      × (o.messages
          ≡ opened
            ∷ written (pos (length text))
            ∷ read_bytes
                (pos (length text))
                (Option.map (λ more. text ++ more) (text_of (drop (length text) junk)))
            ∷ closed
            ∷ [])
      × (o.status ≡ pos 0)
unfolding main write_text my_open
main-junk f junk text s n h =
    let s' = (my_open true f s).1 in
    let (write, holds) = my_write-text f text s' h (ground arith) in
    let after = (stored f text (replicate dev_buffer_size 0) s').files in
    let next : Files → Option Outcome = λ s. some (close_fd f s) in
    let end = close_fd-Prints f (unlock after) in
    let (o, e, m, z) =
      reading-Prints f junk next after (closed ∷ []) text (zeros_behind text) holds n h end in
    (
      say opened (say (written (pos (length text))) o),
      ground (arith, write, e),
      ap (λ ms. opened ∷ written (pos (length text)) ∷ ms)
          (m
            ∙ ap (λ t. read_bytes (pos (length text)) t ∷ closed ∷ []) (text_of-patch junk text n)),
      z,
    )
