-- ===== src/Completion/Presses.antt =====
-- The debounced interrupt of 19_kernel_synchronization/03_completion/my_completion.c.
use linux_driver_development.Base.{
  Bool-cases, List, [], arith, if◌then◌else◌, inl, inr, length, ltb, ℕ, ◌%◌, ◌+◌, ◌-◌, ◌<◌, ◌∷◌,
  ◌≡◌, ◌≤◌,
}
use linux_driver_development.Completion.{Driver, int_mod, isr, jiffies_mod}

-- Interrupts at the given times, in order: the driver, and the times of the accepted ones, in order.
unfoldable pub run : ℕ → List ℕ → Driver → Driver × List ℕ
run delay [] d = (d, [])
run delay (t ∷ ts) d =
    let (d', accepted) = isr delay t d in
    let (end, times) = run delay ts d' in (end, if accepted then t ∷ times else times)

-- Each time of the list is at least `delay` after the one before it, and the first after `t`.
abbrev pub Spaced : ℕ → ℕ → List ℕ → Type 0
Spaced delay t [] = Unit
Spaced delay t (u ∷ us) = (t + delay ≤ u) × Spaced delay u us

abbrev pub Ascending : ℕ → List ℕ → Type 0
Ascending t [] = Unit
Ascending t (u ∷ us) = (t ≤ u) × (u < jiffies_mod) × Ascending u us

Ascending-le : (s t : ℕ) (ts : List ℕ) → s ≤ t → Ascending t ts → Ascending s ts
Ascending-le s t [] h a = tt
Ascending-le s t (u ∷ us) h a = (omega arith, a.1, a.2)

-- For interrupts at rising times that fit a jiffies counter, from any value of the press counter that fits
-- its 32 bits on: the accepted ones are at least the
-- debounce delay apart from one another and from the last one before; the press counter, an int that
-- wraps round at 2 ^ 32, has gone up by the number of them, and the completion by one for each of them.
pub run-Spaced :
    (delay : ℕ) (ts : List ℕ) (d : Driver)
    → Ascending d.last_jiffies ts
    → d.press_count < int_mod
    → let (end, times) = run delay ts d in
      Spaced delay d.last_jiffies times
      × (end.press_count ≡ (d.press_count + length times) % int_mod)
      × (end.done ≡ d.done + length times)
unfolding run isr
run-Spaced delay [] d a c = (tt, omega arith, omega arith)
run-Spaced delay (t ∷ ts) d a c =
    let elapsed = (t + jiffies_mod - d.last_jiffies) % jiffies_mod in
    elim (Bool-cases (ltb elapsed delay)) [
      | inl early ↦
          let ih = run-Spaced delay ts d (Ascending-le d.last_jiffies t ts a.0 a.2) c in
          ground arith
      | inr late ↦
          let d' : Driver = record {
            done = d.done + 1;
            press_count = (d.press_count + 1) % int_mod;
            last_jiffies = t;
          } in
          let ih = run-Spaced delay ts d' a.2 (omega arith) in ground arith
    ]
