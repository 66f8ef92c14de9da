-- ===== src/BusyWait/Spin.antt =====
-- The reader of 18_wait_queue_poll_fasync/01_busy_wait/busy_wait.c against the interrupt.
use linux_driver_development.Kernel.{eagain, efault}
use native.Mathlib.Decide.{dec_lt}
use linux_driver_development.Base.{
  Bool, Bool-cases, arith, false, if◌then◌else◌, inl, inr, neg, none, not, pos, refl, some, suc,
  true, zero, ℕ, ◌&&◌, ◌+◌, ◌<◌, ◌≡◌, ◌≤◌,
}
use linux_driver_development.BusyWait.{ReadCall, message_size, my_read, spin}

spin_ends :
    (fuel i t : ℕ) (sees : ℕ → Bool)
    → ((j : ℕ) → t ≤ j → sees j ≡ true)
    → i ≤ t
    → t < i + fuel
    → (k : ℕ) × (spin fuel sees i ≡ some k)
unfolding spin
spin_ends zero i t sees up le h = absurd (omega arith)
spin_ends (suc fuel) i t sees up le h = elim (Bool-cases (sees i)) [
  | inl seen ↦ (i, rw (seen, spin))
  | inr not_yet ↦
      rw (not_yet, spin) (spin_ends fuel (i + 1) t sees up (later not_yet) (omega arith))
]
  where
    later : sees i ≡ false → i + 1 ≤ t
    later e = elim (dec_lt i t) [
      | yes lt ↦ omega arith
      | no ge ↦ absurd (wrong (up i (omega arith)))
    ]
      where
        wrong : sees i ≡ true → ⊥
        wrong q = cc

spin_forever : (fuel i : ℕ) (sees : ℕ → Bool) → ((j : ℕ) → sees j ≡ false) → spin fuel sees i ≡ none
unfolding spin
spin_forever zero i sees never = refl
spin_forever (suc fuel) i sees never = rw (never i, spin) (spin_forever fuel (i + 1) sees never)

-- A reader returns within t + 1 looks if `data_available` is set from look t on, and then its result
-- is that of its copy and it has taken the data, unless O_NONBLOCK is set and the first look found
-- none: then it is -EAGAIN.
pub my_read_returns :
    (c : ReadCall) (fuel t : ℕ) (sees : ℕ → Bool)
    → ((j : ℕ) → t ≤ j → sees j ≡ true)
    → t ≤ fuel
    → my_read c fuel sees
      ≡ some (
          if c.nonblock && not (sees 0)
          then (neg (pos eagain), false)
          else ((if c.copy_fails then neg (pos efault) else pos message_size), false))
unfolding my_read
my_read_returns c fuel t sees up le = elim (Bool-cases (sees 0)) [
  | inl seen ↦ ground arith
  | inr not_yet ↦
      let (k, ends) = spin_ends fuel 1 t sees up (positive not_yet) (omega arith) in ground arith
]
  where
    positive : sees 0 ≡ false → 1 ≤ t
    positive e = elim (dec_lt 0 t) [
      | yes lt ↦ lt
      | no ge ↦ absurd (let up0 : sees 0 ≡ true = up 0 (omega arith) in cc)
    ]

-- If no interrupt ever comes, a reader without O_NONBLOCK spins for every number of looks.
pub my_read_spins :
    (c : ReadCall) (fuel : ℕ) (sees : ℕ → Bool)
    → c.nonblock ≡ false
    → ((j : ℕ) → sees j ≡ false)
    → my_read c fuel sees ≡ none
unfolding my_read
my_read_spins c fuel sees b never = ground (arith, never 0, spin_forever fuel 1 sees never)
