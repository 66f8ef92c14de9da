-- ===== src/Ioctl/Closing.antt =====
-- 08_ioctl/test1.c closes its file.
use linux_driver_development.PrivateData.Program.{
  Message, Outcome, cleared, close_fd, from_kernel, hello, opened, read_bytes, reading, say,
  to_kernel, write_text, written,
}
use linux_driver_development.Base.{
  Bool, List, Option, Option-cases, arith, codes, inl, inr, none, some, true, ℕ, ◌≡◌,
}
use linux_driver_development.Kernel.{UserAccess, patch, text_of}
use linux_driver_development.Ioctl.{Codes, my_ioctl}
use linux_driver_development.PrivateData.{
  Files, dev_buffer_size, my_open, my_read, my_release, my_write,
}
use linux_driver_development.Ioctl.Client.{Answers, commanding, conversation, main, zeros}
use mathlib.Core.Option

-- Whatever follows in the program leaves the driver without a buffer for the file.
abbrev Closes : ℕ → (Files → Option Outcome) → Type 0
Closes f next = (s : Files) (o : Outcome) → next s ≡ some o → o.files.private_data f ≡ none

close_fd-none : (f : ℕ) (s : Files) → (close_fd f s).files.private_data f ≡ none
unfolding close_fd my_release
close_fd-none f s = ground arith

map-say-Closes :
    (f : ℕ) (m : Message) (next : Files → Option Outcome) (s : Files) (o : Outcome)
    → Closes f next
    → Option.map (say m) (next s) ≡ some o
    → o.files.private_data f ≡ none
map-say-Closes f m next s o c e = elim (Option-cases (next s)) [
  | inl n ↦ ground (arith, n, e)
  | inr (o', y) ↦ ground (arith, y, e, c s o' y)
]

reading-Closes :
    (u : UserAccess) (f : ℕ) (before : List ℕ) (next : Files → Option Outcome)
    → Closes f next
    → Closes f (reading u f before next)
unfolding reading
reading-Closes u f before next c s o e = elim (Option-cases (my_read u f dev_buffer_size s)) [
  | inl beyond ↦ ground (arith, beyond, e)
  | inr (r, y) ↦
      let read = read_bytes r.result (text_of (patch before 0 r.delivered)) in
      let later = map-say-Closes f read next r.files o c in
      ground (arith, y, e, later, close_fd-none f r.files)
]

commanding-Closes :
    (codes : Codes) (copies : Bool) (value f cmd : ℕ) (done : Option ℕ → Message)
    (next : Files → Option Outcome)
    → Closes f next
    → Closes f (commanding codes copies value f cmd done next)
unfolding commanding
commanding-Closes codes copies value f cmd done next c s o e =
    let r = my_ioctl codes copies value f cmd s in
    let later = map-say-Closes f (done r.to_user) next r.files o c in
    ground (arith, e, later, close_fd-none f r.files)

conversation-Closes : (codes : Codes) (a : Answers) (f : ℕ) → Closes f (conversation codes a f)
unfolding conversation
conversation-Closes codes a f =
    let next_6 : Files → Option Outcome = λ s. some (close_fd f s) in
    let next_5 = reading a.second_read f zeros next_6 in
    let next_4 = commanding codes true 0 f codes.clear (λ v. cleared) next_5 in
    let next_3 = reading a.first_read f zeros next_4 in
    let told = a.user_write_copies in
    let next_2 =
      commanding codes told 0xb00b00 f codes.user_write (λ v. to_kernel 0xb00b00) next_3 in
    let asked = a.user_read_copies in
    let next_1 = commanding codes asked 0 f codes.user_read from_kernel next_2 in
    let end : Closes f next_6 = λ s o e. ground (arith, e, close_fd-none f s) in
    let second = reading-Closes a.second_read f zeros next_6 end in
    let clear = commanding-Closes codes true 0 f codes.clear (λ v. cleared) next_5 second in
    let first = reading-Closes a.first_read f zeros next_4 clear in
    let user_write =
      commanding-Closes codes told 0xb00b00 f codes.user_write (λ v. to_kernel 0xb00b00) next_3
        first in
    let user_read =
      commanding-Closes codes asked 0 f codes.user_read from_kernel next_2 user_write in
    commanding-Closes codes true 0 f codes.say_hello (λ v. hello) next_1 user_read

write_text-Closes :
    (u : UserAccess) (f : ℕ) (text : List ℕ) (next : Files → Option Outcome)
    → Closes f next
    → Closes f (write_text u f text next)
unfolding write_text
write_text-Closes u f text next c s o e = elim (Option-cases (my_write u f text s)) [
  | inl beyond ↦ ground (arith, beyond, e)
  | inr (r, y) ↦
      let later = map-say-Closes f (written r.result) next r.files o c in
      ground (arith, y, e, later, close_fd-none f r.files)
]

-- However the calls answer: when the program ends, its file is closed, and the driver holds no buffer
-- for it, if it held none before.
pub main_closes :
    (codes : Codes) (a : Answers) (f : ℕ) (text : List ℕ) (s : Files) {o : Outcome}
    → s.private_data f ≡ none
    → main codes a f text s ≡ some o
    → o.files.private_data f ≡ none
unfolding main my_open
main_closes codes a f text s {o} h e =
    let s' = (my_open a.allocated f s).1 in
    let after = write_text a.writing f text (conversation codes a f) in
    let closes =
      write_text-Closes a.writing f text (conversation codes a f) (conversation-Closes codes a f) in
    let later = map-say-Closes f opened after s' o closes in ground (arith, h, e, later)
