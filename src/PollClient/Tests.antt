-- ===== src/PollClient/Tests.antt =====
-- Runs of the programs of 18_wait_queue_poll_fasync/03_poll_select with its driver.
use linux_driver_development.PollClient.Multi.{
  Turn, first_received, main_multi, second_received, stdin_typed,
}
use linux_driver_development.PollClient.Unread.{expected_multi, main_multi-eq_expected}
use linux_driver_development.Base.{
  List, [], arith, false, neg, none, pos, refl, some, true, ◌%◌, ◌∷◌, ◌≡◌, ◌≤◌,
}
use linux_driver_development.Kernel.{efault}
use linux_driver_development.PollClient.{Round, buffer_room, loop, main, pressed, read_failed}
use linux_driver_development.PollClient.Single.{expected, main-eq_expected}
use linux_driver_development.PollSelect.{
  consume, isr, message_size, my_open, my_poll, my_read, signal_came, uint_mod,
}
use linux_driver_development.PollSelect.Events.{presses}

abbrev pressed_twice : List Round
pressed_twice = pressed 0 0 false ∷ pressed 2 1 false ∷ pressed 1 0 true ∷ pressed 1 0 false ∷ []

-- Three interrupts in one round make one message, and a failed copy ends the loop.
pressed_twice_lem :
    main true signal_came pressed_twice 7 ≡ some (pos 19 ∷ [], read_failed (neg (pos efault)))
unfolding main my_open loop my_poll my_read consume isr presses
pressed_twice_lem = refl

main-eq_expected_example :
    (main true signal_came pressed_twice (7 % uint_mod) ≡ some (expected pressed_twice 7))
    × (message_size ≤ buffer_room)
main-eq_expected_example =
    main-eq_expected signal_came pressed_twice 7
      (omega arith, (omega arith, (omega arith, (omega arith, tt))))

-- In the first round an interrupt comes between the two reads.
abbrev two_turns : List Turn
two_turns =
    record {
      before_poll = 1;
      before_first = 0;
      before_second = 1;
      typed = some (pos 3);
      first_fails = false;
      second_fails = false;
    }
    ∷ record {
      before_poll = 0;
      before_first = 0;
      before_second = 0;
      typed = none;
      first_fails = false;
      second_fails = false;
    }
    ∷ []

-- It is left over for the first file.
left_over :
    expected_multi two_turns 0 0
    ≡ stdin_typed (pos 3)
      ∷ first_received (pos 19)
      ∷ second_received (pos 19)
      ∷ first_received (pos 19)
      ∷ []
left_over = refl

main_multi-eq_expected_example :
    main_multi true true signal_came two_turns 7 ≡ some (expected_multi two_turns 0 0)
main_multi-eq_expected_example =
    main_multi-eq_expected signal_came two_turns 7 (omega arith)
      (omega arith, omega arith, omega arith, (omega arith, omega arith, omega arith, tt))
