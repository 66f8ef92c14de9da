-- ===== src/WaitQueue/Tests.antt =====
-- Runs of 18_wait_queue_poll_fasync/02_wait_queue/wait_queue.c at concrete inputs.
use linux_driver_development.Base.{arith, false, negsuc, refl, true, ◌+◌, ◌-◌, ◌≡◌, ◌≤◌}
use linux_driver_development.WaitQueue.{ReadCall, condition_true, my_read}
use linux_driver_development.WaitQueue.Readers.{
  Crowd, Reach, deliver, enter, here, loaded, next, press, served-le-presses,
}

abbrev poller : ReadCall
poller = record { nonblock = true; len = 5; wake = condition_true; copy_fails = false }

empty_handed :
    my_read poller false ≡ record { result = negsuc 10; stored = 0; data_available = false }
unfolding my_read
empty_handed = refl

-- One reader, one press, one message.
abbrev once : Crowd
once = record {
  data_available = false;
  outside = 0 + 1;
  sleeping = 0;
  passing = 0 + 1 - 1;
  presses = 0 + 1;
  served = 0 + 1;
}

once_reached : Reach (loaded 1) once
once_reached = next (next (next here press) (enter refl (omega arith))) (deliver (omega arith))

served-le-presses_example : once.served ≤ once.presses
served-le-presses_example = served-le-presses once_reached
