-- ===== src/Fasync/Client.antt =====
-- 18_wait_queue_poll_fasync/04_fasync/test_fasync.c, run against the driver beside it: its handler of
-- SIGIO reads the device and prints what it gets. A pending SIGIO is one, however often it was sent.
use linux_driver_development.Base.{
  Bool, List, [], arith, false, if◌then◌else◌, ltb_ℤ, pos, refl, ℕ, ◌+◌, ◌==◌, ◌||◌, ◌∷◌, ◌≡◌, ◌≤◌,
}
use linux_driver_development.Fasync.{Driver, isr, my_read}

-- The driver, whether SIGIO is pending for the program, and the messages printed.
pub record Process : Type 0 where
  pub driver : Driver
  pub pending : Bool
  pub messages : ℕ

-- The button is pressed; or the process runs, and in the handler, if SIGIO is pending, copy_to_user
-- fails or not.
pub data Event : Type 0 where
  pressed : Event
  process_runs : Bool → Event

-- `sigio_handler`
unfoldable pub sigio_handler : Bool → Process → Process
sigio_handler copy_fails p =
    let (n, d) = my_read copy_fails p.driver in
    record {
      driver = d;
      pending = false;
      messages = (if ltb_ℤ (pos 0) n then p.messages + 1 else p.messages);
    }

abbrev pub in_queue : ℕ → List ℕ → Bool
in_queue file [] = false
in_queue file (f ∷ fs) = let rest = in_queue file fs in f == file || rest

-- The interrupt sends SIGIO to the program if its file is in the queue.
unfoldable pub happen : ℕ → Event → Process → Process
unfolding sigio_handler
happen file pressed p = record {
  driver = isr p.driver;
  pending = p.pending || in_queue file p.driver.async_queue;
  messages = p.messages;
}
happen file (process_runs copy_fails) p = if p.pending then sigio_handler copy_fails p else p

unfoldable pub run : ℕ → List Event → Process → Process
unfolding happen
run file [] p = p
run file (e ∷ es) p = run file es (happen file e p)

-- The program behind its two calls of fcntl: its file, and no other, is in the queue.
abbrev pub set_up : ℕ → Process
set_up file = record {
  driver = record { async_queue = file ∷ []; data_available = false; signalled = [] };
  pending = false;
  messages = 0;
}

abbrev pub press_count : List Event → ℕ
press_count [] = 0
press_count (pressed ∷ es) = press_count es + 1
press_count (process_runs copy_fails ∷ es) = press_count es

-- SIGIO is pending exactly while there is something to read.
abbrev Told : ℕ → Process → Type 0
Told file p = (p.pending ≡ p.driver.data_available) × (p.driver.async_queue ≡ file ∷ [])

happen-Told : (file : ℕ) (e : Event) (p : Process) → Told file p → Told file (happen file e p)
unfolding happen sigio_handler my_read isr
happen-Told file pressed p h = ground (arith, h.0, h.1)
happen-Told file (process_runs copy_fails) p h = ground (arith, h.0, h.1)

run-Told : (file : ℕ) (es : List Event) (p : Process) → Told file p → Told file (run file es p)
unfolding run
run-Told file [] p h = h
run-Told file (e ∷ es) p h = run-Told file es (happen file e p) (happen-Told file e p h)

-- A message is still to come for a press that has not been read, and for no other.
abbrev owed : Process → ℕ
owed p = if p.driver.data_available then 1 else 0

run-messages :
    (file : ℕ) (es : List Event) (p : Process)
    → (run file es p).messages + owed (run file es p) ≤ p.messages + owed p + press_count es
unfolding run happen sigio_handler my_read isr
run-messages file [] p = omega arith
run-messages file (pressed ∷ es) p = ground (arith, run-messages file es (happen file pressed p))
run-messages file (process_runs copy_fails ∷ es) p =
    ground (arith, run-messages file es (happen file (process_runs copy_fails) p))

-- However presses and the program's runs follow one another: whenever a press is unread, SIGIO is
-- pending, and the next run reads it, so none stays behind; and there are never more messages than
-- presses.
pub handler_misses_nothing :
    (file : ℕ) (es : List Event) (copy_fails : Bool)
    → let p = run file es (set_up file) in
      (p.pending ≡ p.driver.data_available)
      × ((happen file (process_runs copy_fails) p).driver.data_available ≡ false)
      × (p.messages ≤ press_count es)
unfolding happen sigio_handler my_read
handler_misses_nothing file es copy_fails =
    let told = run-Told file es (set_up file) (refl, refl) in
    let count = run-messages file es (set_up file) in
    (told.0, ground (arith, told.0), ground (arith, count))
