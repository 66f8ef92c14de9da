-- ===== src/Ioctl/Commands.antt =====
-- What the commands of 08_ioctl/my_cdev.c do.
use linux_driver_development.Base.{
  Bool, List, [], arith, codes, false, neg, none, pos, replicate, some, ℕ, ◌≡◌, ◌≢◌, ◌⊎◌,
}
use linux_driver_development.Kernel.{Bounded, UserAccess, copy_to_user, efault, einval, strlen}
use linux_driver_development.Ioctl.{Codes, clear_buffer, my_ioctl}
use linux_driver_development.PrivateData.{
  Reply as PrivateReply, Files, dev_buffer_size, my_read, read_size, unlock,
}
use linux_driver_development.PrivateData.Safety.{IsValid, put-IsValid, zeros-Closed}

-- A read that delivers nothing.
abbrev pub nothing_read : Files → PrivateReply
nothing_read s = record { result = pos 0; delivered = []; files = unlock s }

-- Clearing an open file returns 0; a read of it after that delivers nothing and returns 0, whatever
-- it asks for, unless a signal interrupts it; and the data of every other file is as before.
pub my_read-clear :
    (codes : Codes) (copies : Bool) (value f count : ℕ) (buf : List ℕ) (u : UserAccess) (s : Files)
    → s.private_data f ≡ some buf
    → u.interrupted ≡ false
    → Bounded u
    → let s' = (my_ioctl codes copies value f codes.clear s).files in
      ((my_ioctl codes copies value f codes.clear s).result ≡ pos 0)
      × (my_read u f count s' ≡ some (nothing_read s'))
      × ((g : ℕ) → g ≢ f → s'.private_data g ≡ s.private_data g)
unfolding my_ioctl clear_buffer my_read copy_to_user strlen read_size
my_read-clear codes copies value f count buf u s e i b =
    (ground (arith, e), ground (arith, e, i, b 0), λ g n. ground (arith, e, n))

-- A command other than MYCDEV_CLEAR leaves the files as they are. It returns 0, or -EINVAL for a
-- number that is none of the four, or -EFAULT if a copy fails, which then moves no int; only
-- MYCDEV_USER_READ writes to user space, and that is 0xc0ffee.
pub my_ioctl_harmless :
    (codes : Codes) (copies : Bool) (value f cmd : ℕ) (s : Files)
    → cmd ≢ codes.clear
    → let r = my_ioctl codes copies value f cmd s in
      (r.files ≡ s)
      × ((r.result ≡ pos 0) ⊎ (r.result ≡ neg (pos einval)) ⊎ (r.result ≡ neg (pos efault)))
      × (r.result ≡ neg (pos einval)
          → (cmd ≢ codes.say_hello) × (cmd ≢ codes.user_read) × (cmd ≢ codes.user_write))
      × (r.result ≡ neg (pos efault) → (copies ≡ false) × (r.to_user ≡ none) × (r.from_user ≡ none))
      × ((v : ℕ) → r.to_user ≡ some v → (v ≡ 0xc0ffee) × (cmd ≡ codes.user_read))
unfolding my_ioctl
my_ioctl_harmless codes copies value f cmd s n = ground arith

clear_buffer-IsValid : (f : ℕ) (s : Files) → IsValid s → IsValid (clear_buffer f s).files
unfolding clear_buffer
clear_buffer-IsValid f s v g buf h = ground (
  arith,
  h,
  v g buf,
  put-IsValid f (some (replicate dev_buffer_size 0)) s v (λ b q. ground (arith, q, zeros-Closed)) g
      buf,
)

-- No command leaves a buffer without its closing zero byte.
pub my_ioctl-IsValid :
    (codes : Codes) (copies : Bool) (value f cmd : ℕ) (s : Files)
    → IsValid s
    → IsValid (my_ioctl codes copies value f cmd s).files
unfolding my_ioctl
my_ioctl-IsValid codes copies value f cmd s v g buf h =
    ground (arith, h, clear_buffer-IsValid f s v g buf, v g buf)
