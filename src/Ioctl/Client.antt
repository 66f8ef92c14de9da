-- ===== src/Ioctl/Client.antt =====
-- 08_ioctl/test1.c, run against the driver of 08_ioctl/my_cdev.c.
use linux_driver_development.PrivateData.Program.{
  Message, Outcome, cleared, close_fd, failed, from_kernel, hello, opened, reading, say, to_kernel,
  write_text,
}
use linux_driver_development.Base.{
  Bool, List, Option, [], codes, if◌then◌else◌, is_neg, negsuc, replicate, some, true, ℕ, ◌∷◌,
}
use linux_driver_development.Kernel.{UserAccess}
use linux_driver_development.Ioctl.{Codes, my_ioctl, my_open}
use linux_driver_development.PrivateData.{Files, dev_buffer_size}
use mathlib.Core.Option

-- How the kernel answers the program's calls: whether kzalloc returns memory, the copies of its write
-- and its two reads, and whether the int of the two commands can be copied.
pub record Answers : Type 0 where
  pub allocated : Bool
  pub writing : UserAccess
  pub first_read : UserAccess
  pub second_read : UserAccess
  pub user_read_copies : Bool
  pub user_write_copies : Bool

-- A command of the program: `done` makes the message of a success from the driver's reply, and `next`
-- follows.
unfoldable pub commanding :
    Codes
    → Bool
    → ℕ
    → ℕ
    → ℕ
    → (Option ℕ → Message)
    → (Files → Option Outcome)
    → Files
    → Option Outcome
unfolding close_fd
commanding codes copies value f cmd done next s =
    let r = my_ioctl codes copies value f cmd s in
    if is_neg r.result
    then some (say failed (close_fd f r.files))
    else Option.map (say (done r.to_user)) (next r.files)

-- The program's buffer before a read: it is declared with zeros, and cleared by memset.
abbrev pub zeros : List ℕ
zeros = replicate dev_buffer_size 0

-- What follows the write in `main`.
unfoldable pub conversation : Codes → Answers → ℕ → Files → Option Outcome
unfolding reading commanding close_fd
conversation codes a f =
    commanding codes true 0 f codes.say_hello (λ v. hello)
      (commanding codes a.user_read_copies 0 f codes.user_read from_kernel (
        commanding codes a.user_write_copies 0xb00b00 f codes.user_write (λ v. to_kernel 0xb00b00)
          (reading a.first_read f zeros (
            commanding codes true 0 f codes.clear (λ v. cleared)
              (reading a.second_read f zeros (λ s. some (close_fd f s)))))))

-- `main` with argv[2] = `text`, for the file f.
unfoldable pub main : Codes → Answers → ℕ → List ℕ → Files → Option Outcome
unfolding conversation write_text
main codes a f text s =
    let (ret, s') = my_open a.allocated f s in
    if is_neg ret
    then some (record { messages = failed ∷ []; status = negsuc 0; files = s' })
    else Option.map (say opened) (write_text a.writing f text (conversation codes a f) s')
