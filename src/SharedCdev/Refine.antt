-- ===== src/SharedCdev/Refine.antt =====
-- The invariant of the processes of 19_kernel_synchronization/01_mutex/test/my_cdev.c, and that every
-- step keeps it.
use linux_driver_development.FileOps.Transfer.{my_write-IsValid}
use linux_driver_development.FileOps.{dev_buffer_size, read_size, write_size}
use linux_driver_development.Base.{
  List, arith, drop, false, length, none, refl, some, take, ℕ, ◌+◌, ◌-◌, ◌<◌, ◌≡◌, ◌≢◌, ◌≤◌,
}
use linux_driver_development.Kernel.{Bounded, patch, strlen}
use linux_driver_development.SharedCdev.{
  Answer, Op, Pc, System, crash, crashed, finish, go_to, interrupted_answer, leaving, loading,
  outside, read, received, sleeping, storing, take_lock, waiting, write,
}
use linux_driver_development.SharedCdev.Atomic.{Sequential, after, atomic, device}

-- No copy of the call leaves more than it was asked for.
abbrev pub IsBounded : Op → Type 0
IsBounded (read u count) = Bounded u
IsBounded (write u src) = Bounded u

-- A process that does not hold the mutex.
abbrev pub Free : Pc → Type 0
Free outside = Unit
Free (waiting op) = IsBounded op
Free (sleeping u src) = ⊥
Free (storing u src bytes i) = ⊥
Free (loading u count n bytes) = ⊥
Free (leaving op a) = ⊥
Free (crashed op) = ⊥

-- How far the process that holds the mutex has come with a call at the offset `off` on the buffer
-- `a`, and what the buffer is by then.
abbrev pub Within : Pc → ℕ → List ℕ → List ℕ → Type 0
Within outside off a buf = ⊥
Within (waiting op) off a buf = ⊥
Within (sleeping u src) off a buf = Bounded u × (u.interrupted ≡ false) × (buf ≡ a)
Within (storing u src bytes i) off a buf =
    Bounded u
    × (u.interrupted ≡ false)
    × (off < dev_buffer_size)
    × (bytes ≡ received u src (write_size off (length src)))
    × (i ≤ length bytes)
    × (buf ≡ patch a off (take i bytes))
Within (loading u count n bytes) off a buf =
    Bounded u
    × (u.interrupted ≡ false)
    × ((len : ℕ) × (strlen a ≡ some len) × (n ≡ read_size len off count))
    × (off + n ≤ length a)
    × (length bytes ≤ n - u.not_copied n)
    × (bytes ≡ take (length bytes) (drop off a))
    × (buf ≡ a)
Within (leaving op answer) off a buf = IsBounded op × (atomic op off a ≡ (some answer, buf))
Within (crashed op) off a buf = buf ≡ a

pub record Inv (s : System) : Type 0 where
  pub free : (q : ℕ) → s.owner ≢ some q → Free (s.pc q)
  pub held : (p : ℕ) → s.owner ≡ some p → Within (s.pc p) (s.offset p) (after s.ended) s.dev_buffer
  pub idle : s.owner ≡ none → s.dev_buffer ≡ after s.ended
  pub sequential : Sequential s.ended
  pub size : length (after s.ended) ≡ dev_buffer_size

-- The holder of the mutex goes on.
pub go_on :
    (p : ℕ) (c : Pc) (buf : List ℕ) (s : System)
    → Inv s
    → s.owner ≡ some p
    → Within c (s.offset p) (after s.ended) buf
    → Inv (go_to p c (record s { dev_buffer = buf }))
go_on p c buf s v o w = record {
  free = λ q n. ground (arith, v.free q n, o);
  held = λ q h. ground (arith, h, o, w);
  idle = λ h. ground (arith, h, o);
  sequential = v.sequential;
  size = v.size;
}

-- A process takes the free mutex.
pub grab :
    (p : ℕ) (c : Pc) (s : System)
    → Inv s
    → s.owner ≡ none
    → Within c (s.offset p) (after s.ended) s.dev_buffer
    → Inv (go_to p c (take_lock p s))
grab p c s v o w = record {
  free = λ q n. ground (arith, v.free q, n, o);
  held = λ q h. ground (arith, h, w);
  idle = λ h. ground (arith, h);
  sequential = v.sequential;
  size = v.size;
}

-- A process in front of the mutex, or outside, goes on without it.
pub stroll : (p : ℕ) (c : Pc) (s : System) → Inv s → s.owner ≢ some p → Free c → Inv (go_to p c s)
stroll p c s v o f = record {
  free = λ q n. ground (arith, v.free q n, f);
  held = λ q h. ground (arith, h, o, v.held q h);
  idle = v.idle;
  sequential = v.sequential;
  size = v.size;
}

-- A call that ends leaves the buffer that it leaves alone.
size-after :
    (op : Op) (off : ℕ) (buf : List ℕ)
    → IsBounded op
    → length buf ≡ dev_buffer_size
    → length (atomic op off buf).1 ≡ dev_buffer_size
unfolding atomic
size-after (read u count) off buf b h = h
size-after (write u src) off buf b h = (my_write-IsValid u (device buf) off src b (h, refl)).0

-- A call that ends after a signal, without the mutex.
pub turn_back :
    (p : ℕ) (op : Op) (s : System)
    → Inv s
    → s.owner ≢ some p
    → atomic op (s.offset p) (after s.ended)
      ≡ (some (interrupted_answer (s.offset p)), after s.ended)
    → Inv (finish p op (interrupted_answer (s.offset p)) s)
unfolding after
turn_back p op s v o e = record {
  free = λ q n. ground (arith, v.free q n);
  held = λ q h. ground (arith, h, o, v.held q h, e);
  idle = λ h. ground (arith, v.idle h, e);
  sequential = ground (arith, e, v.sequential);
  size = ground (arith, e, v.size);
}

-- The holder gives the mutex back.
pub give_back :
    (p : ℕ) (op : Op) (a : Answer) (s : System)
    → Inv s
    → s.owner ≡ some p
    → IsBounded op
    → atomic op (s.offset p) (after s.ended) ≡ (some a, s.dev_buffer)
    → Inv (finish p op a (record s { owner = none }))
unfolding after
give_back p op a s v o b e = record {
  free = λ q n. ground (arith, v.free q, o);
  held = λ q h. ground (arith, h);
  idle = λ h. ground (arith, e);
  sequential = ground (arith, e, v.sequential);
  size = ground (arith, e, size-after op (s.offset p) (after s.ended) b v.size);
}

-- A process takes the free mutex and is stopped by an access beyond the buffer.
pub fall :
    (p : ℕ) (op : Op) (s : System)
    → Inv s
    → s.owner ≡ none
    → atomic op (s.offset p) (after s.ended) ≡ (none, after s.ended)
    → Inv (crash p op (take_lock p s))
unfolding after
fall p op s v o e = record {
  free = λ q n. ground (arith, v.free q, n, o);
  held = λ q h. ground (arith, h, o, v.idle o, e);
  idle = λ h. ground (arith, h);
  sequential = ground (arith, e, v.sequential);
  size = ground (arith, e, v.size);
}
