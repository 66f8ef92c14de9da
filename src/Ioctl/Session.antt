-- ===== src/Ioctl/Session.antt =====
-- What 08_ioctl/test1.c prints when every call works.
use linux_driver_development.Base.{
  List, Option, [], ap, arith, codes, length, pos, replicate, some, true, ℕ, ◌++◌, ◌<◌, ◌∙◌, ◌∷◌,
  ◌≡◌, ◌≢◌,
}
use linux_driver_development.Kernel.{
  NoZero, holds, patch, smooth, strlen-append, take-all, take-append_le, text_of,
}
use linux_driver_development.Ioctl.{Codes, clear_buffer, my_ioctl}
use linux_driver_development.PrivateData.{Files, dev_buffer_size, my_open, put, unlock}
use linux_driver_development.PrivateData.Program.{
  Message, Outcome, cleared, close_fd, closed, from_kernel, hello, opened, read_bytes, reading, say,
  to_kernel, write_text, written,
}
use linux_driver_development.PrivateData.Text.{stored}
use linux_driver_development.PrivateData.Prints.{
  Prints, close_fd-Prints, my_write-text, patch-zeros, reading-Prints, zeros_behind,
}
use linux_driver_development.Ioctl.Client.{Answers, commanding, conversation, main, zeros}
use mathlib.Core.Path.{subst}

-- The calls of a session in which every call works.
abbrev pub works : Answers
works = record {
  allocated = true;
  writing = smooth;
  first_read = smooth;
  second_read = smooth;
  user_read_copies = true;
  user_write_copies = true;
}

abbrev pub Distinct : Codes → Type 0
Distinct codes =
    (codes.say_hello ≢ codes.clear)
    × (codes.user_read ≢ codes.clear)
    × (codes.user_read ≢ codes.say_hello)
    × (codes.user_write ≢ codes.clear)
    × (codes.user_write ≢ codes.say_hello)
    × (codes.user_write ≢ codes.user_read)

abbrev pub session : List ℕ → List Message
session text =
    opened
    ∷ written (pos (length text))
    ∷ hello
    ∷ from_kernel (some 0xc0ffee)
    ∷ to_kernel 0xb00b00
    ∷ read_bytes (pos (length text)) (some text)
    ∷ cleared
    ∷ read_bytes (pos 0) (some [])
    ∷ closed
    ∷ []

text_of-patch :
    (text : List ℕ)
    → NoZero text
    → length text < dev_buffer_size
    → text_of (patch zeros 0 text) ≡ some text
text_of-patch text n h =
    let whole = take-append_le (length text) text (0 ∷ zeros_behind text) (omega arith) in
    let all = take-all (length text) text (omega arith) in
    rw (patch-zeros text h, strlen-append text (zeros_behind text) n) (ap some (whole ∙ all))

module _ (codes : Codes) (f : ℕ) (next : Files → Option Outcome) (s : Files) (ms : List Message)
    (d : Distinct codes) where
  hello-Prints :
      Prints next s ms
      → Prints (commanding codes true 0 f codes.say_hello (λ v. hello) next) s (hello ∷ ms)
  unfolding commanding my_ioctl
  hello-Prints (o, e, m, z) = (say hello o, ground (arith, d, e), ground (arith, m), z)

  user_read-Prints :
      Prints next s ms
      → Prints
          (commanding codes true 0 f codes.user_read from_kernel next)
          s
          (from_kernel (some 0xc0ffee) ∷ ms)
  unfolding commanding my_ioctl
  user_read-Prints (o, e, m, z) =
      (say (from_kernel (some 0xc0ffee)) o, ground (arith, d, e), ground (arith, m), z)

  user_write-Prints :
      Prints next s ms
      → Prints
          (commanding codes true 0xb00b00 f codes.user_write (λ v. to_kernel 0xb00b00) next)
          s
          (to_kernel 0xb00b00 ∷ ms)
  unfolding commanding my_ioctl
  user_write-Prints (o, e, m, z) =
      (say (to_kernel 0xb00b00) o, ground (arith, d, e), ground (arith, m), z)

  clear-Prints :
      (buf : List ℕ)
      → s.private_data f ≡ some buf
      → Prints next (put f (some (replicate dev_buffer_size 0)) s) ms
      → Prints (commanding codes true 0 f codes.clear (λ v. cleared) next) s (cleared ∷ ms)
  unfolding commanding my_ioctl clear_buffer
  clear-Prints buf b (o, e, m, z) = (say cleared o, ground (arith, d, e, b), ground (arith, m), z)

  -- A read of a buffer that starts with a text and a zero byte prints the text.
  text-Prints :
      (text rest : List ℕ)
      → s.private_data f ≡ some (text ++ (0 ∷ rest))
      → NoZero text
      → length text < dev_buffer_size
      → Prints next (unlock s) ms
      → Prints (reading smooth f zeros next) s (read_bytes (pos (length text)) (some text) ∷ ms)
  text-Prints text rest b n h p =
      subst (λ t. Prints (reading smooth f zeros next) s (read_bytes (pos (length text)) t ∷ ms))
        (text_of-patch text n h) (reading-Prints f zeros next s ms text rest b n h p)

-- The behaviour of the commands and of the two reads on a file that holds a text.
conversation-Prints :
    (codes : Codes) (f : ℕ) (text rest : List ℕ) (s : Files)
    → Distinct codes
    → s.private_data f ≡ some (text ++ (0 ∷ rest))
    → NoZero text
    → length text < dev_buffer_size
    → Prints (conversation codes works f) s (
        hello
        ∷ from_kernel (some 0xc0ffee)
        ∷ to_kernel 0xb00b00
        ∷ read_bytes (pos (length text)) (some text)
        ∷ cleared
        ∷ read_bytes (pos 0) (some [])
        ∷ closed
        ∷ [])
unfolding conversation
conversation-Prints codes f text rest s d b n h =
    let next_6 : Files → Option Outcome = λ s. some (close_fd f s) in
    let next_5 = reading smooth f zeros next_6 in
    let next_4 = commanding codes true 0 f codes.clear (λ v. cleared) next_5 in
    let next_3 = reading smooth f zeros next_4 in
    let next_2 =
      commanding codes true 0xb00b00 f codes.user_write (λ v. to_kernel 0xb00b00) next_3 in
    let next_1 = commanding codes true 0 f codes.user_read from_kernel next_2 in
    let s' = put f (some (replicate dev_buffer_size 0)) (unlock s) in
    let end = close_fd-Prints f (unlock s') in
    let second =
      text-Prints codes f next_6 s' _ d [] (replicate 63 0) (ground arith) tt (omega arith) end in
    let clear = clear-Prints codes f next_5 (unlock s) _ d (text ++ (0 ∷ rest)) b second in
    let first = text-Prints codes f next_4 s _ d text rest b n h clear in
    hello-Prints codes f next_1 s _ d
      (user_read-Prints codes f next_2 s _ d (user_write-Prints codes f next_3 s _ d first))

-- With four distinct command numbers, and where every call works, the program run on a text without
-- zero bytes that is shorter than the buffer prints the session that its comment shows: the text
-- comes back whole, the driver's number is 0xc0ffee, and behind MYCDEV_CLEAR there is nothing to read.
pub main-session :
    (codes : Codes) (f : ℕ) (text : List ℕ) (s : Files)
    → Distinct codes
    → NoZero text
    → length text < dev_buffer_size
    → (o : Outcome) × (main codes works f text s ≡ some o)
      × (o.messages ≡ session text)
      × (o.status ≡ pos 0)
unfolding main write_text my_open
main-session codes f text s d n h =
    let s' = (my_open true f s).1 in
    let (write, holds) = my_write-text f text s' h (ground arith) in
    let after = (stored f text (replicate dev_buffer_size 0) s').files in
    let more = conversation-Prints codes f text (zeros_behind text) after d holds n h in
    let o : Outcome = say opened (say (written (pos (length text))) more.0) in
    (o, ground (arith, write, more.1), ground (arith, more.2), more.3)
