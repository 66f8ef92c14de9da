-- ===== src/PrivateData/Program.antt =====
-- What the programs 07_file_cdev_fops/02_private_data/test1.c and 08_ioctl/test1.c do alike, with the
-- files of the driver of 07_file_cdev_fops/02_private_data/my_cdev.c.
use linux_driver_development.Base.{
  List, Option, [], if◌then◌else◌, is_neg, none, pos, some, ℕ, ℤ, ◌∷◌,
}
use linux_driver_development.Kernel.{UserAccess, patch, text_of}
use linux_driver_development.PrivateData.{Files, dev_buffer_size, my_read, my_release, my_write}
use mathlib.Core.Option

-- The programs' messages: for a read the number of bytes, and the text that printf finds in the
-- buffer, `none` where it reads beyond the buffer's end; the int that a command has stored, `none`
-- where it has stored nothing; `failed` for every perror. The commands are those of
-- 08_ioctl/test1.c.
pub data Message : Type 0 where
  opened hello cleared failed closed : Message
  written : ℤ → Message
  from_kernel : Option ℕ → Message
  to_kernel : ℕ → Message
  read_bytes : ℤ → Option (List ℕ) → Message

-- What the program prints, what it returns, and the driver's files.
pub record Outcome : Type 0 where
  pub messages : List Message
  pub status : ℤ
  pub files : Files

abbrev pub say : Message → Outcome → Outcome
say m o = record o { messages = m ∷ o.messages }

-- The label `close_fd` and what follows it.
unfoldable pub close_fd : ℕ → Files → Outcome
close_fd f s =
    let (ret, s') = my_release f s in
    if is_neg ret
    then record { messages = failed ∷ []; status = ret; files = s' }
    else record { messages = closed ∷ []; status = pos 0; files = s' }

-- A read of 64 bytes into the program's buffer, which holds `before`, and `next` behind its message.
-- `none` is an access of the driver beyond its buffer.
unfoldable pub reading : UserAccess → ℕ → List ℕ → (Files → Option Outcome) → Files → Option Outcome
unfolding close_fd
reading u f before next s = elim (my_read u f dev_buffer_size s) [
  | none ↦ none
  | some r ↦
      if is_neg r.result
      then some (say failed (close_fd f r.files))
      else Option.map (say (read_bytes r.result (text_of (patch before 0 r.delivered))))
          (next r.files)
]

-- The write of the text and the test of its result, and `next` behind its message. `none` is an access of
-- the driver beyond its buffer.
unfoldable pub write_text :
    UserAccess → ℕ → List ℕ → (Files → Option Outcome) → Files → Option Outcome
unfolding close_fd
write_text u f text next s = elim (my_write u f text s) [
  | none ↦ none
  | some r ↦
      if is_neg r.result
      then some (say failed (close_fd f r.files))
      else Option.map (say (written r.result)) (next r.files)
]
