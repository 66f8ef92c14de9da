-- ===== src/Hrtimer/Timer.antt =====
-- The timer of 13_hrtimer/my_hrtimer.c: how `my_init` starts it and how a callback moves it on. Times
-- are nanoseconds.
use native.Mathlib.Nat.{div-eq_of_lt}
use linux_driver_development.Base.{
  List, [], ap, arith, get_or, if◌then◌else◌, length, length-take, ltb, min, refl, replicate, suc,
  take, zero, ℕ, ◌*◌, ◌++◌, ◌+◌, ◌-◌, ◌/◌, ◌<◌, ◌^◌, ◌∙◌, ◌∷◌, ◌≡◌, ◌≤◌,
}
use linux_driver_development.Hrtimer.{
  Sampler, deltas, hrtimer_callback, loaded, max_sample, my_exit,
}
use linux_driver_development.Hrtimer.Samples.{first_callbacks_recorded, run}

-- The arguments of ktime_set in `my_init`: one millisecond.
abbrev pub one_ms : ℕ
one_ms = 1000000

-- The static variables, and when the timer expires next.
pub record Timer : Type 0 where
  pub sampler : Sampler
  pub period : ℕ
  pub start_time : ℕ
  pub expires : ℕ

-- hrtimer_forward_now, after its documented contract: the expiry moves on by the interval until it is
-- later than `now`.
unfoldable pub hrtimer_forward_now : ℕ → ℕ → ℕ → ℕ
hrtimer_forward_now now interval expires =
    if ltb now expires then expires else expires + ((now - expires) / interval + 1) * interval

-- `my_init`: `now` is what ktime_get_ns returns, and `started` the time of hrtimer_start.
unfoldable pub my_init : ℕ → ℕ → Timer
my_init now started = record {
  sampler = loaded;
  period = one_ms;
  start_time = now;
  expires = started + one_ms;
}

-- The timer fires: `hrtimer_callback` is called at the time `now`.
unfoldable pub fire : ℕ → Timer → Timer
unfolding hrtimer_forward_now
fire now t = record t {
  sampler = hrtimer_callback now t.sampler;
  expires = hrtimer_forward_now now t.period t.expires;
}

unfoldable pub fire_all : List ℕ → Timer → Timer
fire_all [] t = t
fire_all (now ∷ ts) t = fire_all ts (fire now t)

-- Every callback is called when the timer has expired, and less than a period late.
abbrev pub Timely : Timer → List ℕ → Type 0
Timely t [] = Unit
Timely t (now ∷ ts) =
    (t.expires ≤ now) × (now < t.expires + t.period) × (now < 2 ^ 64) × Timely (fire now t) ts

-- A callback less than a period late moves the expiry on by one period.
fire-expires :
    (now : ℕ) (t : Timer)
    → 0 < t.period
    → t.expires ≤ now
    → now < t.expires + t.period
    → (fire now t).expires ≡ t.expires + t.period
unfolding fire hrtimer_forward_now
fire-expires now t p h l =
    let late_by : (now - t.expires) / t.period ≡ 0 = div-eq_of_lt (omega arith) in
    let one_period : ((now - t.expires) / t.period + 1) * t.period ≡ t.period =
      ap (λ k. (k + 1) * t.period) late_by ∙ omega arith in
    ground (arith, one_period)

-- The i-th callback comes in the i-th period.
Timely-get_or :
    (t : Timer) (ts : List ℕ) (i : ℕ)
    → t.period ≡ one_ms
    → Timely t ts
    → i < length ts
    → (t.expires + i * one_ms ≤ get_or ts i 0)
      × (get_or ts i 0 < t.expires + i * one_ms + one_ms)
      × (get_or ts i 0 < 2 ^ 64)
unfolding fire
Timely-get_or t [] i p h l = absurd (omega arith)
Timely-get_or t (now ∷ ts) zero p h l = (omega arith, omega arith, omega arith)
Timely-get_or t (now ∷ ts) (suc i) p h l =
    let e = fire-expires now t (omega arith) h.0 h.1 in
    omega (arith, e, Timely-get_or (fire now t) ts i p h.3)

fire_all-run : (ts : List ℕ) (t : Timer) → (fire_all ts t).sampler ≡ run ts t.sampler
unfolding fire_all run fire
fire_all-run [] t = refl
fire_all-run (now ∷ ts) t = fire_all-run ts (fire now t)

-- Every number of the list lies between 0 and two milliseconds.
abbrev pub UnderTwoMs : List ℕ → Type 0
UnderTwoMs [] = Unit
UnderTwoMs (d ∷ ds) = (0 < d) × (d < 2 * one_ms) × UnderTwoMs ds

-- The differences of neighbours that are taken from the index i on.
deltas-UnderTwoMs :
    (ts : List ℕ) (i rounds : ℕ)
    → ((j : ℕ)
        → i ≤ j
        → j < i + rounds
        → (get_or ts (j - 1) 0 < get_or ts j 0)
          × (get_or ts j 0 < get_or ts (j - 1) 0 + 2 * one_ms)
          × (get_or ts j 0 < 2 ^ 64))
    → UnderTwoMs (deltas ts i rounds)
unfolding deltas
deltas-UnderTwoMs ts i zero h = tt
deltas-UnderTwoMs ts i (suc rounds) h =
    let (more, close, small) = h i (omega arith) (omega arith) in
    (
      omega arith,
      omega arith,
      deltas-UnderTwoMs ts (i + 1) rounds (λ j l m. h j (omega arith) (omega arith)),
    )

get_or-append_before :
    (xs ys : List ℕ) (i : ℕ) → i < length xs → get_or (xs ++ ys) i 0 ≡ get_or xs i 0
get_or-append_before [] ys i h = absurd (omega arith)
get_or-append_before (x ∷ xs) ys zero h = refl
get_or-append_before (x ∷ xs) ys (suc i) h = get_or-append_before xs ys i (omega arith)

get_or-take : (n : ℕ) (xs : List ℕ) (i : ℕ) → i < n → get_or (take n xs) i 0 ≡ get_or xs i 0
get_or-take zero xs i h = absurd (omega arith)
get_or-take (suc n) [] i h = refl
get_or-take (suc n) (x ∷ xs) zero h = refl
get_or-take (suc n) (x ∷ xs) (suc i) h = get_or-take n xs i (omega arith)

length-deltas : (ts : List ℕ) (i rounds : ℕ) → length (deltas ts i rounds) ≡ rounds
unfolding deltas
length-deltas ts i zero = refl
length-deltas ts i (suc rounds) = ap suc (length-deltas ts (i + 1) rounds)

-- What the array holds of the first twenty callbacks.
abbrev recorded : List ℕ → List ℕ
recorded ts = take max_sample ts ++ replicate (max_sample - length ts) 0

recorded-get_or :
    (ts : List ℕ) (j : ℕ)
    → j < length (take max_sample ts)
    → get_or (recorded ts) j 0 ≡ get_or ts j 0
recorded-get_or ts j h =
    get_or-append_before (take max_sample ts) (replicate (max_sample - length ts) 0) j h
    ∙ get_or-take max_sample ts j (omega (arith, length-take max_sample ts))

recorded-neighbours :
    (t : Timer) (ts : List ℕ) (j : ℕ)
    → t.period ≡ one_ms
    → Timely t ts
    → 1 ≤ j
    → j < length (take max_sample ts)
    → (get_or (recorded ts) (j - 1) 0 < get_or (recorded ts) j 0)
      × (get_or (recorded ts) j 0 < get_or (recorded ts) (j - 1) 0 + 2 * one_ms)
      × (get_or (recorded ts) j 0 < 2 ^ 64)
recorded-neighbours t ts j p h l m =
    let shorter = length-take max_sample ts in
    let now = Timely-get_or t ts j p h (omega (arith, shorter)) in
    let before = Timely-get_or t ts (j - 1) p h (omega (arith, shorter)) in
    omega (arith, now, before, recorded-get_or ts j m, recorded-get_or ts (j - 1) (omega arith))

-- Where every callback comes less than a millisecond after the timer has expired, at a time that fits
-- u64, `my_exit` logs the differences between the first twenty callbacks, or between all if there were
-- fewer, and each of them lies between 0 and two milliseconds.
pub my_exit-UnderTwoMs :
    (now started : ℕ) (ts : List ℕ)
    → Timely (my_init now started) ts
    → let logged = my_exit (fire_all ts (my_init now started)).sampler in
      (length logged ≡ min max_sample (length ts) - 1) × UnderTwoMs logged
unfolding my_init my_exit
my_exit-UnderTwoMs now started ts h =
    let n = length (take max_sample ts) in
    rw (fire_all-run ts (my_init now started) ∙ first_callbacks_recorded ts) (
      omega (arith, length-deltas (recorded ts) 1 (n - 1), length-take max_sample ts),
      deltas-UnderTwoMs (recorded ts) 1 (n - 1)
          λ j l m. recorded-neighbours (my_init now started) ts j refl h l (omega arith),
    )
