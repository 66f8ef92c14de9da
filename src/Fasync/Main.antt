-- ===== src/Fasync/Main.antt =====
-- `main` of 18_wait_queue_poll_fasync/04_fasync/test_fasync.c: the setup, and the loop that counts while
-- the handler of SIGIO does its work.
use linux_driver_development.Base.{
  Bool, List, Option, [], ap, arith, false, if◌then◌else◌, none, not, refl, some, true, ℕ, ℤ, ◌%◌,
  ◌+◌, ◌<◌, ◌^◌, ◌∙◌, ◌∷◌, ◌≡◌,
}
use linux_driver_development.Fasync.{Driver, isr, my_fasync, my_read}
use linux_driver_development.Fasync.Client.{
  Event, Process, happen, in_queue, pressed, process_runs, run, set_up, sigio_handler,
}

module _ (fasync_helper : ℕ → Bool → List ℕ → ℤ × List ℕ) where
  -- The file is opened, or `main` returns 1 (`none`). fcntl with O_ASYNC calls the driver's `my_fasync`;
  -- its result is not looked at.
  pub start : Bool → ℕ → Driver → Option Process
  unfolding my_fasync
  start opens file d =
      if not opens
      then none
      else some (record {
        driver = (my_fasync fasync_helper file true d).1;
        pending = false;
        messages = 0;
      })

-- The program behind the setup: what its signals do, and `counter`, an int.
pub record Running : Type 0 where
  pub process : Process
  pub counter : ℕ

-- A round of the loop, or something that happens in between: a press, or a run of the handler.
pub data Step : Type 0 where
  works : Step
  meanwhile : Event → Step

unfoldable pub go_on : ℕ → Step → Running → Running
unfolding happen
go_on file works r = record r { counter = (r.counter + 1) % 2 ^ 32 }
go_on file (meanwhile e) r = record r { process = happen file e r.process }

unfoldable pub go : ℕ → List Step → Running → Running
unfolding go_on
go file [] r = r
go file (s ∷ ss) r = go file ss (go_on file s r)

abbrev pub rounds : List Step → ℕ
rounds [] = 0
rounds (works ∷ ss) = rounds ss + 1
rounds (meanwhile e ∷ ss) = rounds ss

abbrev pub events : List Step → List Event
events [] = []
events (works ∷ ss) = events ss
events (meanwhile e ∷ ss) = e ∷ events ss

-- The loop and the handler do not get in each other's way: in any order of their steps the program has
-- counted its rounds, modulo 2 ^ 32, and has handled the presses as the handler alone would have.
pub go-run :
    (file : ℕ) (ss : List Step) (r : Running)
    → r.counter < 2 ^ 32
    → ((go file ss r).counter ≡ (r.counter + rounds ss) % 2 ^ 32)
      × ((go file ss r).process ≡ run file (events ss) r.process)
unfolding go run
go-run file [] r h = (omega arith, refl)
go-run file (works ∷ ss) r h =
    let (c, p) = go-run file ss (go_on file works r) (omega arith) in (omega (arith, c), p)
go-run file (meanwhile e ∷ ss) r h = go-run file ss (go_on file (meanwhile e) r) h

-- A program whose file is not in the driver's queue stays as it is, however often the button is
-- pressed.
silent :
    (file : ℕ) (es : List Event) (p : Process)
    → in_queue file p.driver.async_queue ≡ false
    → p.pending ≡ false
    → ((run file es p).messages ≡ p.messages) × ((run file es p).pending ≡ false)
unfolding run happen isr sigio_handler my_read
silent file [] p q h = (refl, h)
silent file (pressed ∷ es) p q h =
    let (m, s) = silent file es (happen file pressed p) q (ground (arith, q, h)) in (m, s)
silent file (process_runs copy_fails ∷ es) p q h =
    let e : happen file (process_runs copy_fails) p ≡ p = ground (arith, h) in
    ground (arith, e, silent file es p q h)

abbrev as_registered : (ℕ → Bool → List ℕ → ℤ × List ℕ) → ℕ → Driver → Process
as_registered fasync_helper file d = record {
  driver = record d { async_queue = (fasync_helper file true d.async_queue).1 };
  pending = false;
  messages = 0;
}

-- Where fasync_helper leaves the queue without the file, as it does when it fails, the program does not
-- notice: it goes on counting, and prints no message, however often the button is pressed.
pub unregistered_silent :
    (fasync_helper : ℕ → Bool → List ℕ → ℤ × List ℕ) (file : ℕ) (d : Driver) (ss : List Step)
    → in_queue file (fasync_helper file true d.async_queue).1 ≡ false
    → (p : Process) × (start fasync_helper true file d ≡ some p)
      × ((go file ss (record { process = p; counter = 0 })).process.messages ≡ 0)
      × ((go file ss (record { process = p; counter = 0 })).counter ≡ rounds ss % 2 ^ 32)
unfolding start my_fasync
unregistered_silent fasync_helper file d ss q =
    let p = as_registered fasync_helper file d in
    let (counted, handled) = go-run file ss (record { process = p; counter = 0 }) (omega arith) in
    (
      p,
      refl,
      ap (λ (p : Process). p.messages) handled ∙ (silent file (events ss) p q refl).0,
      omega (arith, counted),
    )

-- Where fasync_helper registers the file in an empty queue and nothing is to be read, the program's setup
-- is the state from which its handler misses nothing.
pub start-set_up :
    (fasync_helper : ℕ → Bool → List ℕ → ℤ × List ℕ) (file : ℕ)
    → (fasync_helper file true []).1 ≡ file ∷ []
    → start fasync_helper true file
        (record { async_queue = []; data_available = false; signalled = [] })
      ≡ some (set_up file)
unfolding start my_fasync
start-set_up fasync_helper file q = rw q refl
