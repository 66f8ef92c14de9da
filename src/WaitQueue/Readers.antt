-- ===== src/WaitQueue/Readers.antt =====
-- Several readers of 18_wait_queue_poll_fasync/02_wait_queue/wait_queue.c at once: the test of
-- `data_available` and the assignment that clears it are two steps, and nothing locks them together.
-- Readers are alike, so the state counts how many stand at each point.
use mathlib.Core.Path.{subst}
use linux_driver_development.Base.{
  Bool, arith, false, refl, suc, sym, true, zero, ℕ, ◌+◌, ◌-◌, ◌<◌, ◌∙◌, ◌≡◌, ◌≤◌,
}

pub record Crowd : Type 0 where
  pub data_available : Bool
  pub outside : ℕ  -- not in `my_read`
  pub sleeping : ℕ  -- in wait_event_interruptible
  pub passing : ℕ  -- behind the test, before `data_available = 0`
  pub presses : ℕ  -- interrupts so far
  pub served : ℕ  -- reads that returned the message so far

pub data Step (s : Crowd) : Crowd → Type 0 where
  press : Step s (record s { data_available = true; presses = s.presses + 1 })
  enter :
      s.data_available ≡ true
      → 0 < s.outside
      → Step s (record s { outside = s.outside - 1; passing = s.passing + 1 })
  fall_asleep :
      s.data_available ≡ false
      → 0 < s.outside
      → Step s (record s { outside = s.outside - 1; sleeping = s.sleeping + 1 })
  awake :
      s.data_available ≡ true
      → 0 < s.sleeping
      → Step s (record s { sleeping = s.sleeping - 1; passing = s.passing + 1 })
  interrupt :
      0 < s.sleeping → Step s (record s { sleeping = s.sleeping - 1; outside = s.outside + 1 })
  deliver :
      0 < s.passing
      → Step s (record s {
        data_available = false;
        passing = s.passing - 1;
        outside = s.outside + 1;
        served = s.served + 1;
      })
  fail_copy :
      0 < s.passing
      → Step s
          (record s { data_available = false; passing = s.passing - 1; outside = s.outside + 1 })

-- The module freshly loaded, with n readers.
abbrev pub loaded : ℕ → Crowd
loaded n = record {
  data_available = false;
  outside = n;
  sleeping = 0;
  passing = 0;
  presses = 0;
  served = 0;
}

pub data Reach (s : Crowd) : Crowd → Type 0 where
  here : Reach s s
  next : {t u : Crowd} → Reach s t → Step t u → Reach s u

abbrev bit : Bool → ℕ
bit true = 1
bit false = 0

record IsFair (s : Crowd) : Type 0 where
  alone : s.outside + s.sleeping + s.passing ≡ 1
  ready : 0 < s.passing → s.data_available ≡ true
  paid : s.served + bit s.data_available ≤ s.presses

Step-IsFair : {s t : Crowd} → Step s t → IsFair s → IsFair t
Step-IsFair press f = ground arith
Step-IsFair (enter a o) f = ground arith
Step-IsFair (fall_asleep a o) f = ground arith
Step-IsFair (awake a o) f = ground arith
Step-IsFair (interrupt o) f = ground arith
Step-IsFair (deliver o) f = ground arith
Step-IsFair (fail_copy o) f = ground arith

Reach-IsFair : {s t : Crowd} → IsFair s → Reach s t → IsFair t
Reach-IsFair f here = f
Reach-IsFair f (next r st) = Step-IsFair st (Reach-IsFair f r)

loaded-IsFair : IsFair (loaded 1)
loaded-IsFair = record { alone = refl; ready = λ h. absurd (omega arith); paid = omega arith }

-- With a single reader, the reads that have returned the message are at no time more than the
-- interrupts that came, whatever the order of steps.
pub served-le-presses : {s : Crowd} → Reach (loaded 1) s → s.served ≤ s.presses
served-le-presses r = omega (arith, (Reach-IsFair loaded-IsFair r).paid)

Reach-trans : {s t u : Crowd} → Reach s t → Reach t u → Reach s u
Reach-trans r here = r
Reach-trans r (next q st) = next (Reach-trans r q) st

-- Data is there, and k readers go in one after another.
all_enter :
    (k : ℕ) (s t : Crowd)
    → s.data_available ≡ true
    → s.outside ≡ k
    → t ≡ record s { outside = 0; passing = s.passing + k }
    → Reach s t
all_enter zero s t a o e = subst (Reach s) (sym (e ∙ ground arith)) here
all_enter (suc k) s t a o e =
    let s' : Crowd = record s { outside = s.outside - 1; passing = s.passing + 1 } in
    Reach-trans (next here (enter a (omega arith)))
      (all_enter k s' t a (omega arith) (ground arith))

-- k readers that are past the test all return the message.
all_deliver :
    (k : ℕ) (s t : Crowd)
    → s.data_available ≡ false
    → s.passing ≡ k
    → t ≡ record s { passing = 0; outside = s.outside + k; served = s.served + k }
    → Reach s t
all_deliver zero s t a o e = subst (Reach s) (sym (e ∙ ground arith)) here
all_deliver (suc k) s t a o e =
    let s' : Crowd = record s {
      data_available = false;
      passing = s.passing - 1;
      outside = s.outside + 1;
      served = s.served + 1;
    } in
    Reach-trans (next here (deliver (omega arith)))
      (all_deliver k s' t refl (omega arith) (ground arith))

-- With n readers, for every n, one interrupt can make all n of them return the message: each passes
-- the test before the first clears `data_available`.
pub one_press_serves_all :
    (n : ℕ) → (s : Crowd) × Reach (loaded (suc n)) s × (s.presses ≡ 1) × (s.served ≡ suc n)
one_press_serves_all n =
    let pressed : Crowd = record (loaded (suc n)) { data_available = true; presses = 1 } in
    let inside : Crowd = record pressed { outside = 0; passing = suc n } in
    let first : Crowd = record inside {
      data_available = false;
      passing = suc n - 1;
      outside = 0 + 1;
      served = 0 + 1;
    } in
    let done : Crowd = record first { passing = 0; outside = 1 + n; served = 1 + n } in
    (
      done,
      Reach-trans (next here press) (
          Reach-trans (all_enter (suc n) pressed inside refl refl (ground arith)) (
            Reach-trans (next here (deliver (omega arith)))
              (all_deliver n first done refl (omega arith) (ground arith)))),
      refl,
      omega arith,
    )
