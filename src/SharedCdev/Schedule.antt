-- ===== src/SharedCdev/Schedule.antt =====
-- Any interleaving of the processes of 19_kernel_synchronization/01_mutex/test/my_cdev.c is a
-- sequence of whole calls.
use linux_driver_development.SharedCdev.Steps.{enter-Inv, hold-Inv}
use linux_driver_development.Base.{
  Bool-cases, List, Option, [], arith, inl, inr, none, refl, some, ℕ, ◌==◌, ◌∷◌, ◌≡◌, ◌≢◌, ◌⊎◌,
}
use linux_driver_development.SharedCdev.{
  Op, Pc, System, act, crashed, leaving, loaded, loading, outside, run, sleeping, step, storing,
  waiting,
}
use linux_driver_development.SharedCdev.Refine.{Free, Inv, IsBounded, stroll}
use linux_driver_development.SharedCdev.Atomic.{Sequential, after}

holds_or_not : (o : Option ℕ) (p : ℕ) → (o ≡ some p) ⊎ (o ≢ some p)
holds_or_not none p = inr (λ e. ground (arith, e))
holds_or_not (some q) p = elim (Bool-cases (q == p)) [
  | inl y ↦ inl (ground (arith, y))
  | inr n ↦ inr (λ e. ground (arith, e, n))
]

-- A step of a process that does not hold the mutex.
Free-Inv :
    (p : ℕ) (next : Op) (c : Pc) (s : System)
    → Inv s
    → s.owner ≢ some p
    → Free c
    → IsBounded next
    → Inv (act p next c s)
unfolding act
Free-Inv p next outside s v o f b = stroll p (waiting next) s v o b
Free-Inv p next (waiting op) s v o f b = enter-Inv p op s v o f
Free-Inv p next (sleeping u src) s v o f b = absurd f
Free-Inv p next (storing u src bytes i) s v o f b = absurd f
Free-Inv p next (loading u count n bytes) s v o f b = absurd f
Free-Inv p next (leaving op a) s v o f b = absurd f
Free-Inv p next (crashed op) s v o f b = absurd f

step-Inv : (p : ℕ) (next : Op) (s : System) → Inv s → IsBounded next → Inv (step p next s)
unfolding step
step-Inv p next s v b = elim (holds_or_not s.owner p) [
  | inl o ↦ hold-Inv p next (s.pc p) s v o (v.held p o)
  | inr o ↦ Free-Inv p next (s.pc p) s v o (v.free p o) b
]

abbrev pub AllBounded : List (ℕ × Op) → Type 0
AllBounded [] = Unit
AllBounded ((p, next) ∷ rest) = IsBounded next × AllBounded rest

run-Inv :
    (schedule : List (ℕ × Op)) (s : System) → Inv s → AllBounded schedule → Inv (run schedule s)
unfolding run
run-Inv [] s v b = v
run-Inv ((p, next) ∷ rest) s v b = run-Inv rest (step p next s) (step-Inv p next s v b.0) b.1

loaded-Inv : Inv loaded
unfolding after
loaded-Inv = record {
  free = λ q n. tt;
  held = λ p h. ground (arith, h);
  idle = λ h. refl;
  sequential = tt;
  size = refl;
}

-- In every schedule of any number of processes from loading on, each call that has ended has answered
-- what it answers if the calls that ended before it had run one after another, each alone, on the
-- device of 07_file_cdev_fops/01_file_ops; an access beyond the buffer is such an answer too. And
-- whenever the mutex is free, the buffer is what those calls leave.
pub run-Sequential :
    (schedule : List (ℕ × Op))
    → AllBounded schedule
    → let s = run schedule loaded in
      Sequential s.ended × (s.owner ≡ none → s.dev_buffer ≡ after s.ended)
run-Sequential schedule b = let v = run-Inv schedule loaded loaded-Inv b in (v.sequential, v.idle)
