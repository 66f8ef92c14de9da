-- ===== src/NonblockClient/Tests.antt =====
-- Runs of test_nonblock.c at concrete inputs.
use linux_driver_development.Base.{List, [], false, pos, replicate, some, true, ℤ, ◌∷◌, ◌≡◌}
use linux_driver_development.NonblockClient.{
  Answers, Message, buffer_size, read_failed, read_success,
}
use linux_driver_development.NonblockClient.Drivers.{
  busy_wait, busy_wait-eq_wait_queue, text, wait_queue, wait_queue-IsLawful,
}
use linux_driver_development.NonblockClient.Session.{
  Event, expected, pressed, runs, session, session-eq_expected,
}

abbrev works : Answers
works = record { opens = true; copy_fails = false; junk = replicate buffer_size 7 }

abbrev copy_stops : Answers
copy_stops = record { opens = true; copy_fails = true; junk = replicate buffer_size 7 }

-- A run finds nothing; two presses are one message; the copy of the third press's message fails.
abbrev events : List Event
events =
    runs works
    ∷ pressed
    ∷ pressed
    ∷ runs works
    ∷ runs works
    ∷ pressed
    ∷ runs copy_stops
    ∷ runs works
    ∷ []

abbrev again : Message × ℤ
again = (read_failed 11, pos 0)

abbrev prints : List (Message × ℤ)
prints = again ∷ (read_success (some text), pos 0) ∷ again ∷ (read_failed 14, pos 0) ∷ again ∷ []

session-eq_expected_example : session wait_queue events false ≡ some prints
unfolding expected
session-eq_expected_example = session-eq_expected wait_queue-IsLawful events false

busy_wait-eq_wait_queue_example :
    (session (busy_wait 0) events false ≡ session wait_queue events false)
    × (session wait_queue events false ≡ some prints)
unfolding expected
busy_wait-eq_wait_queue_example = busy_wait-eq_wait_queue 0 events false
