-- ===== src/Fasync/Notification.antt =====
-- Who is notified by 18_wait_queue_poll_fasync/04_fasync/my_fasync.c.
use linux_driver_development.Base.{
  Bool, List, [], arith, false, if◌then◌else◌, negsuc, pos, refl, suc, true, zero, ℕ, ℤ, ◌*◌, ◌++◌,
  ◌+◌, ◌==◌, ◌∷◌, ◌≡◌,
}
use linux_driver_development.Fasync.{Driver, isr, my_read, my_release}

abbrev pub count_of : ℕ → List ℕ → ℕ
count_of f [] = 0
count_of f (x ∷ xs) = if x == f then suc (count_of f xs) else count_of f xs

count_of-append : (f : ℕ) (xs ys : List ℕ) → count_of f (xs ++ ys) ≡ count_of f xs + count_of f ys
count_of-append f [] ys = omega arith
count_of-append f (x ∷ xs) ys = ground (arith, count_of-append f xs ys)

-- What fasync_helper documents of taking a file off: afterwards it is not in the queue, and the
-- others are in it as they were.
abbrev pub TakesOff : (ℕ → Bool → List ℕ → ℤ × List ℕ) → Type 0
TakesOff helper =
    (file other : ℕ) (queue : List ℕ)
    → count_of other (helper file false queue).1
      ≡ (if other == file then 0 else count_of other queue)

pub presses : ℕ → Driver → Driver
presses zero d = d
presses (suc k) d = presses k (isr d)

presses-count :
    (k file : ℕ) (d : Driver)
    → count_of file (presses k d).signalled
      ≡ count_of file d.signalled + k * count_of file d.async_queue
unfolding presses isr
presses-count zero file d = omega arith
presses-count (suc k) file d =
    grind (arith, presses-count k file (isr d), count_of-append file d.async_queue d.signalled)

-- After `my_release` of a file, k interrupts send that file no more signals, and every other file as
-- many as its registrations ask for, if fasync_helper takes a file off as documented.
pub my_release_silences :
    (helper : ℕ → Bool → List ℕ → ℤ × List ℕ) (file other k : ℕ) (d : Driver)
    → TakesOff helper
    → let d' = (my_release helper file d).1 in
      count_of other (presses k d').signalled
      ≡ count_of other d.signalled + k * (if other == file then 0 else count_of other d.async_queue)
unfolding my_release
my_release_silences helper file other k d off =
    let d' = (my_release helper file d).1 in
    ground (arith, presses-count k other d', off file other d.async_queue)

-- The answers of reads in a row; each argument says whether the read's copy fails.
pub reads : List Bool → Driver → List ℤ
reads [] d = []
reads (fails ∷ rest) d = let (answer, d') = my_read fails d in answer ∷ reads rest d'

abbrev pub delivered : List ℤ → ℕ
delivered [] = 0
delivered (pos n ∷ answers) = suc (delivered answers)
delivered (negsuc n ∷ answers) = delivered answers

delivered-none :
    (fails : List Bool) (d : Driver) → d.data_available ≡ false → delivered (reads fails d) ≡ 0
unfolding reads my_read
delivered-none [] d h = refl
delivered-none (f ∷ fs) d h = ground (arith, delivered-none fs d h)

presses-available : (k : ℕ) (d : Driver) → (presses (suc k) d).data_available ≡ true
unfolding presses isr
presses-available zero d = refl
presses-available (suc k) d = presses-available k (isr d)

-- Of any row of reads with no interrupt between them at most one returns the message: the first, if
-- there was data and its copy succeeds. However many interrupts came before, they count as one.
pub reads-delivered :
    (f : Bool) (fs : List Bool) (k : ℕ) (d : Driver)
    → delivered (reads (f ∷ fs) (presses (suc k) d)) ≡ (if f then 0 else 1)
unfolding reads my_read
reads-delivered f fs k d =
    let d' = presses (suc k) d in
    ground (arith, presses-available k d, delivered-none fs (my_read f d').1)
