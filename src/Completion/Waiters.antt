-- ===== src/Completion/Waiters.antt =====
-- The waiting threads of 19_kernel_synchronization/03_completion/my_completion.c.
use linux_driver_development.Base.{
  Bool, List, [], arith, false, if◌then◌else◌, refl, suc, true, zero, ℕ, ◌%◌, ◌+◌, ◌<◌, ◌∙◌, ◌∷◌,
  ◌≡◌, ◌⊎◌,
}
use linux_driver_development.Completion.{
  Driver, Waiter, asleep, int_mod, isr, returned, testing, waiter_step, woken,
}

-- k steps of one waiter with nothing else running.
pub steps : ℕ → Bool → Bool → Waiter → Driver → Waiter × Driver
steps zero stopped signal w d = (w, d)
steps (suc k) stopped signal w d =
    let (w', d') = waiter_step stopped signal w d in steps k stopped signal w' d'

-- A waiter that sleeps while no press is pending stays asleep for any number of steps when
-- kthread_stop has been called, unless a signal comes: the stop request is looked at only outside
-- the sleep.
pub asleep_for_ever : (k : ℕ) (d : Driver) → d.done ≡ 0 → steps k true false asleep d ≡ (asleep, d)
unfolding steps waiter_step
asleep_for_ever zero d h = refl
asleep_for_ever (suc k) d h = ground (arith, asleep_for_ever k d h)

-- A waiter that is stopped returns within three of its steps from wherever it stands, if a signal
-- ends its sleep or a press is pending when it starts.
pub stopped_returns :
    (signal : Bool) (w : Waiter) (d : Driver)
    → (signal ≡ true) ⊎ (0 < d.done)
    → (steps 3 true signal w d).0 ≡ returned
unfolding steps waiter_step
stopped_returns signal testing d h = refl
stopped_returns signal asleep d h = ground arith
stopped_returns signal woken d h = refl
stopped_returns signal returned d h = refl

-- Both waiters on the one completion among interrupts; and how many interrupts have been accepted,
-- how many waits have returned for a press, and how many presses a reinit_completion has thrown
-- away.
pub record System : Type 0 where
  pub driver : Driver
  pub first : Waiter
  pub second : Waiter
  pub accepted : ℕ
  pub wakes : ℕ
  pub dropped : ℕ

-- An interrupt at a time, or a step of either waiter, with what kthread_should_stop answers and whether
-- a signal is there.
pub data Event : Type 0 where
  interrupt : ℕ → Event
  first_runs : Bool → Bool → Event
  second_runs : Bool → Bool → Event

-- 1 if a wait returns for a press.
abbrev woke : Waiter → Waiter → ℕ
woke asleep woken = 1
woke w w' = 0

-- What a reinit_completion finds unused.
abbrev lost : Waiter → Driver → ℕ
lost woken d = d.done
lost w d = 0

unfoldable pub happen : ℕ → Event → System → System
unfolding waiter_step
happen delay (interrupt t) s =
    let (d, ok) = isr delay t s.driver in
    record s { driver = d; accepted = (if ok then s.accepted + 1 else s.accepted) }
happen delay (first_runs stopped signal) s =
    let (w, d) = waiter_step stopped signal s.first s.driver in
    record s {
      driver = d;
      first = w;
      wakes = s.wakes + woke s.first w;
      dropped = s.dropped + lost s.first s.driver;
    }
happen delay (second_runs stopped signal) s =
    let (w, d) = waiter_step stopped signal s.second s.driver in
    record s {
      driver = d;
      second = w;
      wakes = s.wakes + woke s.second w;
      dropped = s.dropped + lost s.second s.driver;
    }

unfoldable pub all_happen : ℕ → List Event → System → System
all_happen delay [] s = s
all_happen delay (e ∷ es) s = all_happen delay es (happen delay e s)

abbrev pub loaded : System
loaded = record {
  driver = record { done = 0; press_count = 0; last_jiffies = 0 };
  first = testing;
  second = testing;
  accepted = 0;
  wakes = 0;
  dropped = 0;
}

abbrev Accounted : System → Type 0
Accounted s =
    (s.wakes + s.driver.done + s.dropped ≡ s.accepted)
    × (s.driver.press_count ≡ s.accepted % int_mod)

-- A step of a waiter hands a press on, throws some away or leaves them.
waiter_step-done :
    (stopped signal : Bool) (w : Waiter) (d : Driver)
    → let (w', d') = waiter_step stopped signal w d in
      (woke w w' + d'.done + lost w d ≡ d.done) × (d'.press_count ≡ d.press_count)
unfolding waiter_step
waiter_step-done stopped signal testing d = ground arith
waiter_step-done stopped signal asleep d = ground arith
waiter_step-done stopped signal woken d = ground arith
waiter_step-done stopped signal returned d = ground arith

happen-Accounted : (delay : ℕ) (e : Event) (s : System) → Accounted s → Accounted (happen delay e s)
unfolding happen isr
happen-Accounted delay (interrupt t) s h = ground arith
happen-Accounted delay (first_runs stopped signal) s h =
    let step = waiter_step-done stopped signal s.first s.driver in
    (omega (arith, step, h), step.1 ∙ h.1)
happen-Accounted delay (second_runs stopped signal) s h =
    let step = waiter_step-done stopped signal s.second s.driver in
    (omega (arith, step, h), step.1 ∙ h.1)

all_happen-Accounted :
    (delay : ℕ) (es : List Event) (s : System) → Accounted s → Accounted (all_happen delay es s)
unfolding all_happen
all_happen-Accounted delay [] s h = h
all_happen-Accounted delay (e ∷ es) s h =
    all_happen-Accounted delay es (happen delay e s) (happen-Accounted delay e s h)

-- From loading on, in any interleaving of interrupts with the steps of both waiters, whatever
-- kthread_should_stop answers and whichever signals come: the accepted presses are as many as the waits of
-- the two waiters that have returned for a press, the presses that are pending and those that a
-- reinit_completion has thrown away unused, together, so that no press wakes both; and the press
-- counter, an int, is the number of accepted presses modulo 2 ^ 32.
pub presses_accounted :
    (delay : ℕ) (es : List Event)
    → let s = all_happen delay es loaded in
      (s.wakes + s.driver.done + s.dropped ≡ s.accepted)
      × (s.driver.press_count ≡ s.accepted % int_mod)
presses_accounted delay es = all_happen-Accounted delay es loaded (refl, refl)
