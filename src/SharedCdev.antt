-- ===== src/SharedCdev.antt =====
-- 19_kernel_synchronization/01_mutex/test/my_cdev.c: several processes read and write one device at
-- a time, each through a file of its own. The device is that of 07_file_cdev_fops/01_file_ops, with a
-- sleep in the middle of a write; here every copy goes byte by byte, and the processes take their
-- steps in any order.
pub mod Store
pub mod Atomic
pub mod Refine
pub mod Steps
pub mod Schedule
mod Tests
use linux_driver_development.FileOps
use linux_driver_development.Base.{
  List, Option, [], get_or, if◌then◌else◌, leb, length, ltb, neg, none, pos, replicate, set, some,
  suc, take, ℕ, ℤ, ◌++◌, ◌+◌, ◌-◌, ◌==◌, ◌∷◌,
}
use linux_driver_development.Kernel.{Log, Os, UserAccess, enospc, erestartsys, strlen}
use linux_driver_development.FileOps.{dev_buffer_size, read_size, write_size}

-- A call of `my_read` with a count, or of `my_write` with the bytes of the caller.
pub data Op : Type 0 where
  read : UserAccess → ℕ → Op
  write : UserAccess → List ℕ → Op

-- What a call returns: its result, the bytes delivered to the caller and the new `*pOffset`; `none`
-- is an access beyond the buffer.
pub record Answer : Type 0 where
  pub result : ℤ
  pub delivered : List ℕ
  pub offset : ℕ

-- Where a process stands: outside, in front of mutex_lock_interruptible, in msleep, in copy_from_user
-- with the bytes it stores and how many it has stored, in copy_to_user with the number of bytes it
-- loads and those it has loaded, in front of mutex_unlock, or stopped by an access beyond the buffer.
pub data Pc : Type 0 where
  outside : Pc
  waiting : Op → Pc
  sleeping : UserAccess → List ℕ → Pc
  storing : UserAccess → List ℕ → List ℕ → ℕ → Pc
  loading : UserAccess → ℕ → ℕ → List ℕ → Pc
  leaving : Op → Answer → Pc
  crashed : Op → Pc

-- A call that has ended: the offset it started at, the operation and what it returned.
pub record Done : Type 0 where
  pub start : ℕ
  pub op : Op
  pub answer : Option Answer

-- `dev_buffer`, the owner of `dev_mutex`, and of every process where it stands and the offset of its
-- file; the calls that have ended, the newest first.
pub record System : Type 0 where
  pub dev_buffer : List ℕ
  pub owner : Option ℕ
  pub pc : ℕ → Pc
  pub offset : ℕ → ℕ
  pub ended : List Done

abbrev pub go_to : ℕ → Pc → System → System
go_to p c s = record s { pc = λ q. if q == p then c else s.pc q }

-- The call of p ends with an answer, and the file's offset is set.
abbrev pub finish : ℕ → Op → Answer → System → System
finish p op a s = record s {
  pc = λ q. if q == p then outside else s.pc q;
  offset = λ q. if q == p then a.offset else s.offset q;
  ended = record { start = s.offset p; op = op; answer = some a } ∷ s.ended;
}

-- An access beyond the buffer ends the call of p, which keeps the mutex.
abbrev pub crash : ℕ → Op → System → System
crash p op s = record s {
  pc = λ q. if q == p then crashed op else s.pc q;
  ended = record { start = s.offset p; op = op; answer = none } ∷ s.ended;
}

abbrev pub interrupted_answer : ℕ → Answer
interrupted_answer off = record { result = neg (pos erestartsys); delivered = []; offset = off }

abbrev pub full_answer : ℕ → Answer
full_answer off = record { result = neg (pos enospc); delivered = []; offset = off }

abbrev pub write_done : ℕ → ℕ → Answer
write_done off copied = record { result = pos copied; delivered = []; offset = off + copied }

abbrev pub read_done : ℕ → ℕ → List ℕ → Answer
read_done off copied bytes = record {
  result = pos copied;
  delivered = bytes;
  offset = off + copied;
}

-- The bytes that copy_from_user puts into the buffer.
abbrev pub received : UserAccess → List ℕ → ℕ → List ℕ
received u src n = take (n - u.not_copied n) src ++ replicate (u.not_copied n) 0

-- The mutex taken by p.
abbrev pub take_lock : ℕ → System → System
take_lock p s = record s { owner = some p }

-- `my_read` behind the lock, up to the call of copy_to_user.
unfoldable pub start_read : ℕ → UserAccess → ℕ → System → System
start_read p u count s = elim (strlen s.dev_buffer) [
  | none ↦ crash p (read u count) s
  | some len ↦
      let n = read_size len (s.offset p) count in
      if leb (s.offset p + n) (length s.dev_buffer)
      then go_to p (loading u count n []) s
      else crash p (read u count) s
]

-- `my_write` behind its sleep, up to the call of copy_from_user.
unfoldable pub start_write : ℕ → UserAccess → List ℕ → System → System
start_write p u src s =
    if leb dev_buffer_size (s.offset p)
    then go_to p (leaving (write u src) (full_answer (s.offset p))) s
    else go_to p (storing u src (received u src (write_size (s.offset p) (length src))) 0) s

-- The lock in front of a call: taken if it is free, not taken after a signal, or the process waits.
unfoldable pub enter : ℕ → Op → System → System
unfolding start_read
enter p (read u count) s =
    if u.interrupted
    then finish p (read u count) (interrupted_answer (s.offset p)) s
    else elim s.owner [ none ↦ start_read p u count (take_lock p s) | some o ↦ s ]
enter p (write u src) s =
    if u.interrupted
    then finish p (write u src) (interrupted_answer (s.offset p)) s
    else elim s.owner [ none ↦ go_to p (sleeping u src) (take_lock p s) | some o ↦ s ]

-- One step of p; `next` is the call that it makes if it is outside.
unfoldable pub act : ℕ → Op → Pc → System → System
unfolding enter start_write
act p next outside s = go_to p (waiting next) s
act p next (waiting op) s = enter p op s
act p next (sleeping u src) s = start_write p u src s
act p next (storing u src bytes i) s =
    if ltb i (length bytes)
    then go_to p (storing u src bytes (suc i))
        (record s { dev_buffer = set s.dev_buffer (s.offset p + i) (get_or bytes i 0) })
    else (let n = write_size (s.offset p) (length src) in
        go_to p (leaving (write u src) (write_done (s.offset p) (n - u.not_copied n))) s)
act p next (loading u count n bytes) s =
    let copied = n - u.not_copied n in
    if ltb (length bytes) copied
    then go_to p
        (loading u count n (bytes ++ (get_or s.dev_buffer (s.offset p + length bytes) 0 ∷ []))) s
    else go_to p (leaving (read u count) (read_done (s.offset p) copied bytes)) s
act p next (leaving op a) s = finish p op a (record s { owner = none })
act p next (crashed op) s = s

unfoldable pub step : ℕ → Op → System → System
unfolding act
step p next s = act p next (s.pc p) s

-- A schedule says which process takes the next step, and what it calls if it is outside.
unfoldable pub run : List (ℕ × Op) → System → System
unfolding step
run [] s = s
run ((p, next) ∷ rest) s = run rest (step p next s)

-- The module freshly loaded, every file at its start.
abbrev pub loaded : System
loaded = record {
  dev_buffer = replicate dev_buffer_size 0;
  owner = none;
  pc = λ p. outside;
  offset = λ p. 0;
  ended = [];
}

-- `my_init` and `my_exit` are those of 07_file_cdev_fops/01_file_ops/my_cdev.c.
unfoldable pub my_init : Os → ℤ × Log
my_init os = FileOps.my_init os

unfoldable pub my_exit : Log → Log
my_exit log = FileOps.my_exit log
