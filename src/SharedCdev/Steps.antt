-- ===== src/SharedCdev/Steps.antt =====
-- Every step of a process of 19_kernel_synchronization/01_mutex/test/my_cdev.c keeps the invariant.
use linux_driver_development.Base.{
  Bool-cases, List, Option-cases, [], ap, arith, drop, false, get_or, inl, inr, leb, length,
  length-append, ltb, none, refl, set, some, suc, sym, take, ℕ, ◌++◌, ◌+◌, ◌-◌, ◌∙◌, ◌∷◌, ◌≡◌, ◌≢◌,
}
use linux_driver_development.Kernel.{Bounded, UserAccess, strlen, take-all}
use linux_driver_development.SharedCdev.{
  Op, Pc, System, act, crashed, enter, full_answer, leaving, loading, outside, read, read_done,
  received, sleeping, start_read, start_write, storing, take_lock, waiting, write, write_done,
}
use linux_driver_development.SharedCdev.Refine.{
  Inv, IsBounded, Within, fall, give_back, go_on, grab, turn_back,
}
use linux_driver_development.SharedCdev.Atomic.{
  after, atomic_full, atomic_interrupted_read, atomic_interrupted_write, atomic_outside,
  atomic_read, atomic_unterminated, atomic_write,
}
use linux_driver_development.SharedCdev.Store.{patch-nothing, set-patch, take-suc-drop}
use linux_driver_development.FileOps.Transfer.{length-received, write_size-le}
use linux_driver_development.FileOps.{dev_buffer_size, read_size, write_size}
use mathlib.Core.Path.{ap₂}

-- A read whose lock is free comes to its copy, or is stopped.
start_read-Inv :
    (p : ℕ) (u : UserAccess) (count : ℕ) (s : System)
    → Inv s
    → s.owner ≡ none
    → Bounded u
    → u.interrupted ≡ false
    → Inv (start_read p u count (take_lock p s))
unfolding start_read
start_read-Inv p u count s v o b i = elim (Option-cases (strlen s.dev_buffer)) [
  | inl n ↦
      rw (start_read, n)
        (fall p (read u count) s v o
          (atomic_unterminated u count _ _ i (ap strlen (sym (v.idle o)) ∙ n)))
  | inr (len, e) ↦
      let n = read_size len (s.offset p) count in
      elim (Bool-cases (leb (s.offset p + n) (length s.dev_buffer))) [
        | inl fits ↦
            rw (start_read, e, fits)
              (grab p (loading u count n []) s v o (
                b,
                i,
                (len, ap strlen (sym (v.idle o)) ∙ e, refl),
                ground (arith, fits, v.idle o),
                omega arith,
                refl,
                v.idle o,
              ))
        | inr out ↦
            rw (start_read, e, out)
              (fall p (read u count) s v o (
                atomic_outside u count _ _ len i (ap strlen (sym (v.idle o)) ∙ e)
                  (ap (λ buf. leb (s.offset p + n) (length buf)) (sym (v.idle o)) ∙ out)))
      ]
]

pub enter-Inv :
    (p : ℕ) (op : Op) (s : System) → Inv s → s.owner ≢ some p → IsBounded op → Inv (enter p op s)
unfolding enter
enter-Inv p (write u src) s v o b = elim (Bool-cases u.interrupted) [
  | inl i ↦ simp i (turn_back p (write u src) s v o (atomic_interrupted_write u src _ _ i))
  | inr i ↦ elim (Option-cases s.owner) [
    | inl n ↦ rw (i, n) (grab p (sleeping u src) s v n (b, i, v.idle n))
    | inr (q, e) ↦ rw (i, e) v
  ]
]
enter-Inv p (read u count) s v o b = elim (Bool-cases u.interrupted) [
  | inl i ↦ simp i (turn_back p (read u count) s v o (atomic_interrupted_read u count _ _ i))
  | inr i ↦ elim (Option-cases s.owner) [
    | inl n ↦ rw (i, n) (start_read-Inv p u count s v n b i)
    | inr (q, e) ↦ rw (i, e) v
  ]
]

storing-Inv :
    (p : ℕ) (next : Op) (u : UserAccess) (src bytes : List ℕ) (i : ℕ) (s : System)
    → Inv s
    → s.owner ≡ some p
    → Within (storing u src bytes i) (s.offset p) (after s.ended) s.dev_buffer
    → Inv (act p next (storing u src bytes i) s)
unfolding act
storing-Inv p next u src bytes i s v o (b, on, room, all, some_way, now) =
    let a = after s.ended in
    let off = s.offset p in
    let n = write_size off (length src) in
    let small = write_size-le off (length src) in
    let len : length bytes ≡ n = ap length all ∙ length-received u src n b small.0 in
    elim (Bool-cases (ltb i (length bytes))) [
      | inl more ↦
          let stored = set s.dev_buffer (off + i) (get_or bytes i 0) in
          let longer =
            set-patch a off bytes i (ground (arith, more)) (omega (arith, len, small.1, v.size)) in
          rw more (
            go_on p (storing u src bytes (suc i)) stored s v o (
              b,
              on,
              room,
              all,
              ground (arith, more),
              ap (λ buf. set buf (off + i) (get_or bytes i 0)) now ∙ longer,
            ))
      | inr done ↦
          let whole = take-all i bytes (ground (arith, done)) in
          rw done (
            go_on p (leaving (write u src) (write_done off (n - u.not_copied n))) s.dev_buffer s v o
              (b, ground (arith, atomic_write u src off a on room, now, all, whole)))
    ]

loading-Inv :
    (p : ℕ) (next : Op) (u : UserAccess) (count n : ℕ) (bytes : List ℕ) (s : System)
    → Inv s
    → s.owner ≡ some p
    → Within (loading u count n bytes) (s.offset p) (after s.ended) s.dev_buffer
    → Inv (act p next (loading u count n bytes) s)
unfolding act
loading-Inv p next u count n bytes s v o (b, on, (len, e, size), fits, some_way, so_far, now) =
    let a = after s.ended in
    let off = s.offset p in
    let byte = get_or s.dev_buffer (off + length bytes) 0 in
    let copied = n - u.not_copied n in
    elim (Bool-cases (ltb (length bytes) copied)) [
      | inl more ↦
          let one : length (bytes ++ (byte ∷ [])) ≡ suc (length bytes) =
            omega (arith, length-append bytes (byte ∷ [])) in
          rw more (
            go_on p (loading u count n (bytes ++ (byte ∷ []))) s.dev_buffer s v o (
              b,
              on,
              (len, e, size),
              fits,
              ground (arith, more, one),
              ap₂ (λ xs buf. xs ++ (get_or buf (off + length bytes) 0 ∷ [])) so_far now
                  ∙ take-suc-drop off (length bytes) a (ground (arith, more, fits))
                  ∙ ap (λ j. take j (drop off a)) (sym one),
              now,
            ))
      | inr done ↦ rw done (
          go_on p (leaving (read u count) (read_done off copied bytes)) s.dev_buffer s v o (
            b,
            ground (
              arith,
              atomic_read u count off a len on e (ground (arith, fits, size)),
              size,
              so_far,
              now,
              done,
              some_way,
            ),
          ))
    ]

-- A step of the holder of the mutex.
pub hold-Inv :
    (p : ℕ) (next : Op) (c : Pc) (s : System)
    → Inv s
    → s.owner ≡ some p
    → Within c (s.offset p) (after s.ended) s.dev_buffer
    → Inv (act p next c s)
unfolding act start_write
hold-Inv p next outside s v o w = absurd w
hold-Inv p next (waiting op) s v o w = absurd w
hold-Inv p next (sleeping u src) s v o w = elim (Bool-cases (leb dev_buffer_size (s.offset p))) [
  | inl full ↦
      rw (start_write, full)
        (go_on p (leaving (write u src) (full_answer (s.offset p))) s.dev_buffer s v o (
          w.0,
          ground (
            arith,
            w.2,
            atomic_full u src (s.offset p) (after s.ended) w.1 (ground (arith, full)),
          ),
        ))
  | inr room ↦
      rw (start_write, room)
        (go_on p (storing u src (received u src (write_size (s.offset p) (length src))) 0)
          s.dev_buffer s v o
          (
            w.0,
            w.1,
            ground (arith, room),
            refl,
            omega arith,
            w.2 ∙ sym (patch-nothing (after s.ended) (s.offset p)),
          ))
]
hold-Inv p next (storing u src bytes i) s v o w = storing-Inv p next u src bytes i s v o w
hold-Inv p next (loading u count n bytes) s v o w = loading-Inv p next u count n bytes s v o w
hold-Inv p next (leaving op a) s v o w = give_back p op a s v o w.0 w.1
hold-Inv p next (crashed op) s v o w = v
