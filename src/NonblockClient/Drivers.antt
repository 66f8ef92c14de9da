-- ===== src/NonblockClient/Drivers.antt =====
-- The drivers 18_wait_queue_poll_fasync/01_busy_wait/busy_wait.c and 02_wait_queue/wait_queue.c as
-- test_nonblock.c meets them.
use linux_driver_development.Base.{
  Bool, List, [], arith, codes, false, if◌then◌else◌, is_neg, none, refl, some, sym, true, ℕ, ℤ,
  ◌++◌, ◌∙◌, ◌∷◌, ◌≡◌,
}
use linux_driver_development.Kernel.{NoZero}
use linux_driver_development.NonblockClient.{Driver, IsLawful, buffer_size}
use linux_driver_development.BusyWait
use linux_driver_development.WaitQueue
use linux_driver_development.WaitQueue.{signal_came}
use linux_driver_development.NonblockClient.Session.{Event, expected, session, session-eq_expected}

-- `message`, which is the same in both drivers, without its zero byte.
abbrev pub text : List ℕ
text = codes "Hello from kernel\n"

-- The bytes that a read puts to the buffer.
abbrev pub delivered : ℤ → List ℕ
delivered ret = if is_neg ret then [] else text ++ (0 ∷ [])

-- The flag may change between two looks of a reader that spins, which this one never does.
abbrev pub busy_wait : ℕ → Driver
busy_wait fuel = record {
  State = Bool;
  press = BusyWait.isr;
  read = λ copy_fails available.
      elim (BusyWait.my_read (record { nonblock = true; copy_fails = copy_fails }) fuel
        (λ look. available)) [
          | none ↦ none
          | some (ret, available') ↦ some (ret, delivered ret, available')
        ];
}

-- A reader that does not wait is woken by nothing.
abbrev pub wait_queue : Driver
wait_queue = record {
  State = Bool;
  press = WaitQueue.isr;
  read = λ copy_fails available.
      let call : WaitQueue.ReadCall = record {
        nonblock = true;
        len = buffer_size;
        wake = signal_came;
        copy_fails = copy_fails;
      } in
      let r = WaitQueue.my_read call available in
      some (r.result, delivered r.result, r.data_available);
}

abbrev same : Bool → Bool
same available = available

text-NoZero : NoZero text
text-NoZero = omega arith

pub busy_wait-IsLawful : (fuel : ℕ) → IsLawful (busy_wait fuel) same text
unfolding BusyWait.isr BusyWait.my_read
busy_wait-IsLawful fuel = record {
  unread-press = λ s. refl;
  read-unread = λ copy_fails s rung. (false, refl, ground (arith, rung));
  read-nothing = λ copy_fails s quiet. ground (arith, quiet);
  text-NoZero = text-NoZero;
  text-fits = omega arith;
}

pub wait_queue-IsLawful : IsLawful wait_queue same text
unfolding WaitQueue.isr WaitQueue.my_read
wait_queue-IsLawful = record {
  unread-press = λ s. refl;
  read-unread = λ copy_fails s rung. (false, refl, ground (arith, rung));
  read-nothing = λ copy_fails s quiet. ground (arith, quiet);
  text-NoZero = text-NoZero;
  text-fits = omega arith;
}

-- The program cannot tell the two drivers apart: from the same flag, the same presses and runs print
-- the same messages with either, and every run returns, however little fuel the spinning loop has.
pub busy_wait-eq_wait_queue :
    (fuel : ℕ) (es : List Event) (available : Bool)
    → (session (busy_wait fuel) es available ≡ session wait_queue es available)
      × (session wait_queue es available ≡ some (expected text es available))
busy_wait-eq_wait_queue fuel es available =
    let by_queue = session-eq_expected wait_queue-IsLawful es available in
    (session-eq_expected (busy_wait-IsLawful fuel) es available ∙ sym by_queue, by_queue)
