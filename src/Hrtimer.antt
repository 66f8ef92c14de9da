-- ===== src/Hrtimer.antt =====
-- 13_hrtimer/my_hrtimer.c: a timer records the times of its first twenty callbacks, and unloading the
-- module logs the differences.
pub mod Samples
pub mod Timer
mod Tests
use linux_driver_development.Base.{
  List, [], get_or, if◌then◌else◌, ltb, replicate, set, suc, zero, ℕ, ◌%◌, ◌+◌, ◌-◌, ◌^◌, ◌∷◌,
}

abbrev pub max_sample : ℕ
max_sample = 20

-- `timestams` and `index`.
pub record Sampler : Type 0 where
  pub timestams : List ℕ
  pub index : ℕ

-- `hrtimer_callback` at the time `now`, which is what ktime_get_ns returns. The timer is always
-- started again.
unfoldable pub hrtimer_callback : ℕ → Sampler → Sampler
hrtimer_callback now s =
    if ltb s.index max_sample
    then record { timestams = set s.timestams s.index now; index = s.index + 1 }
    else s

-- The static variables before the first callback.
abbrev pub loaded : Sampler
loaded = record { timestams = replicate max_sample 0; index = 0 }

-- The loop of `my_exit` from the index i on, with as many rounds as are left: the differences logged,
-- in u64.
unfoldable pub deltas : List ℕ → ℕ → ℕ → List ℕ
deltas ts i zero = []
deltas ts i (suc rounds) =
    (get_or ts i 0 + 2 ^ 64 - get_or ts (i - 1) 0) % 2 ^ 64 ∷ deltas ts (i + 1) rounds

unfoldable pub my_exit : Sampler → List ℕ
unfolding deltas
my_exit s = deltas s.timestams 1 (s.index - 1)
