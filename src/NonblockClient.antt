-- ===== src/NonblockClient.antt =====
-- 18_wait_queue_poll_fasync/01_busy_wait/test_nonblock.c and 02_wait_queue/test_nonblock.c, which are
-- the same program: it opens the device with O_NONBLOCK, reads once, prints what came and closes. It is
-- written against an interface of the driver that it is run with.
pub mod Session
pub mod Drivers
mod Tests
use linux_driver_development.Base.{
  Bool, List, Option, [], false, if◌then◌else◌, is_neg, length, magnitude, neg, negsuc, none, not,
  pos, some, true, ℕ, ℤ, ◌++◌, ◌+◌, ◌<◌, ◌∷◌, ◌≡◌,
}
use linux_driver_development.Kernel.{NoZero, eagain, efault, patch, text_of}

-- What the program uses of a driver: how a press of the button changes the driver's state, and the
-- result of a read with O_NONBLOCK, the bytes put to the program's buffer and the state afterwards;
-- the first argument says whether copy_to_user fails, and `none` is a read that does not return.
-- `my_open` and `my_release` change no state and return 0.
pub record Driver : Type 1 where
  pub State : Type 0
  pub press : State → State
  pub read : Bool → State → Option (ℤ × List ℕ × State)

-- `buffer[64]`
abbrev pub buffer_size : ℕ
buffer_size = 64

-- What the program relies on. `unread` says of a state whether there is something to read, and `text`
-- is the driver's message without its zero byte.
pub record IsLawful (D : Driver) (unread : D.State → Bool) (text : List ℕ) : Type 0 where
  pub unread-press : (s : D.State) → unread (D.press s) ≡ true
  pub read-unread :
      (copy_fails : Bool) (s : D.State)
      → unread s ≡ true
      → (s' : D.State) × (unread s' ≡ false)
        × (D.read copy_fails s
            ≡ some (
                if copy_fails
                then (neg (pos efault), [], s')
                else (pos (length text + 1), text ++ (0 ∷ []), s')))
  pub read-nothing :
      (copy_fails : Bool) (s : D.State)
      → unread s ≡ false
      → D.read copy_fails s ≡ some (neg (pos eagain), [], s)
  pub text-NoZero : NoZero text
  pub text-fits : length text < buffer_size

-- What the program prints: the perror of open; for a read the error number, or the text that printf
-- finds in the buffer, `none` where it reads beyond the buffer's end.
pub data Message : Type 0 where
  failed_to_open : Message
  read_failed : ℕ → Message
  read_success : Option (List ℕ) → Message

-- How the kernel answers: whether the file can be opened, and whether copy_to_user fails. `junk` is
-- what the program's buffer, which nobody initialised, holds.
pub record Answers : Type 0 where
  pub opens : Bool
  pub copy_fails : Bool
  pub junk : List ℕ

-- `errno` after a read that returned `ret`.
abbrev pub errno : ℤ → ℕ
errno ret = magnitude ret

module _ (D : Driver) where
  open D use {State, read}

  -- What is printed, what `main` returns, and the driver's state.
  pub main : Answers → State → Option (Message × ℤ × State)
  main a s =
      if not a.opens then some (failed_to_open, negsuc 0, s) else elim (read a.copy_fails s) [
        | none ↦ none
        | some (ret, bytes, s') ↦
            if is_neg ret
            then some (read_failed (errno ret), pos 0, s')
            else some (read_success (text_of (patch a.junk 0 bytes)), pos 0, s')
      ]
