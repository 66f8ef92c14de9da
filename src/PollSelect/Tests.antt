-- ===== src/PollSelect/Tests.antt =====
-- Runs of 18_wait_queue_poll_fasync/03_poll_select/my_poll.c at concrete inputs.
use linux_driver_development.PollSelect.Mailbox.{
  Event, Told, deliver, deliver_all, interrupt, loaded, opens, reads, run, run-deliver_all, wakes,
}
use linux_driver_development.PollSelect.Observed.{poll-ext, press_times}
use linux_driver_development.PollSelect.View.{OpenFile, of_file, poll}
use mathlib.Core.Quot
use linux_driver_development.Base.{
  List, [], ap, arith, false, none, pos, refl, some, true, ◌-◌, ◌∷◌, ◌≡◌,
}
use linux_driver_development.PollSelect.{MyDevData, ReadCall, isr, my_read, signal_came, uint_mod}

abbrev look : ReadCall
look = record { nonblock = true; wake = signal_came; copy_fails = false }

abbrev opened : MyDevData
opened = record { last_event = 7 }

-- The file sees an interrupt once.
seen_once : my_read look (isr 7) opened ≡ (pos 19, record { last_event = 8 })
unfolding my_read isr
seen_once = refl

abbrev two_files : List Event
two_files =
    opens true 1
    ∷ interrupt
    ∷ opens true 2
    ∷ reads false false 2
    ∷ interrupt
    ∷ wakes false 2
    ∷ reads true false 1
    ∷ reads false false 1
    ∷ interrupt
    ∷ reads true false 2
    ∷ []

-- A reader of the second file waits for the second interrupt and is woken by it. The file read before
-- the last interrupt has it to read, the other has not.
two_files_lem :
    (deliver_all two_files (λ g. none) 1 ≡ some 1) × (deliver_all two_files (λ g. none) 2 ≡ some 0)
unfolding deliver_all deliver
two_files_lem = (refl, refl)

run-deliver_all_example :
    Told
      (run two_files loaded).event_count
      ((run two_files loaded).files 1)
      (deliver_all two_files (λ g. none) 1)
run-deliver_all_example = run-deliver_all two_files 1

-- A file that is three events behind, and one whose counter has wrapped round in between.
abbrev three_behind : OpenFile
three_behind = record {
  event_count = 3;
  file = record { last_event = 0 };
  event_count_fits = omega arith;
  last_event_fits = omega arith;
}

abbrev three_behind_wrapped : OpenFile
three_behind_wrapped = record {
  event_count = 1;
  file = record { last_event = uint_mod - 2 };
  event_count_fits = omega arith;
  last_event_fits = omega arith;
}

poll-ext_example : of_file three_behind ≡ of_file three_behind_wrapped
poll-ext_example =
    poll-ext (of_file three_behind) (of_file three_behind_wrapped)
      (λ k. ap (λ v. poll (press_times k v)) (Quot.sound (omega arith)))
