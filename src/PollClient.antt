-- ===== src/PollClient.antt =====
-- The programs that wait for the button of 18_wait_queue_poll_fasync/03_poll_select/my_poll.c:
-- test_poll.c, test_select.c and multi_fd_poll.c, run against the driver of PollSelect. `poll` and
-- `select` are the kernel's: they return when the driver's `my_poll` reports data, or with an error
-- when a signal comes.
pub mod Single
pub mod Multi
pub mod Unread
mod Tests
use linux_driver_development.Base.{
  Bool, List, Option, [], false, if◌then◌else◌, is_neg, none, some, ℕ, ℤ, ◌∷◌,
}
use linux_driver_development.PollSelect.{
  MyDevData, ReadCall, Wake, in_rdnorm, my_open, my_poll, my_read, nothing,
}
use linux_driver_development.PollSelect.Events.{presses}

-- `sizeof(buffer) - 1` of the programs.
abbrev pub buffer_room : ℕ
buffer_room = 63

-- What happens in one round of a program's loop: so many interrupts come before poll returns, and so
-- many between that and the read, whose copy_to_user fails or not; or a signal ends poll.
pub data Round : Type 0 where
  pressed : ℕ → ℕ → Bool → Round
  signalled : Round

-- How a program's loop stands: still waiting in poll when the rounds run out, with the counter and
-- the file's data, or left by `break` after poll or after read.
pub data End : Type 0 where
  waiting : ℕ → MyDevData → End
  poll_failed : End
  read_failed : ℤ → End

-- The read of the programs, whose files are opened without O_NONBLOCK. `wake` is how its sleep would
-- end, if it slept.
abbrev pub call : Wake → Bool → ReadCall
call wake fails = record { nonblock = false; wake = wake; copy_fails = fails }

-- What follows the read in the loop of test_poll.c and test_select.c: `n` is its result.
abbrev pub printed : ℤ → List ℤ × End → List ℤ × End
printed n (messages, end) = if is_neg n then ([], read_failed n) else (n ∷ messages, end)

-- The `while (1)` of test_poll.c, and of test_select.c, over the rounds: the number of bytes of each
-- message that is printed, and how the loop stands. In a round in which `my_poll` reports nothing,
-- poll does not return.
unfoldable pub loop : Wake → List Round → ℕ → MyDevData → List ℤ × End
loop wake [] event_count d = ([], waiting event_count d)
loop wake (signalled ∷ rounds) event_count d = ([], poll_failed)
loop wake (pressed k more fails ∷ rounds) event_count d =
    let count = presses k event_count in
    let later = presses more count in
    let (n, d') = my_read (call wake fails) later d in
    let read = printed n (loop wake rounds later d') in
    let unread = loop wake rounds count d in
    elim (my_poll count d) [ nothing ↦ unread | in_rdnorm ↦ read ]

-- `main` of test_poll.c and of test_select.c: the file is opened, if kmalloc has memory for it, and
-- the loop runs.
unfoldable pub main : Bool → Wake → List Round → ℕ → Option (List ℤ × End)
unfolding loop
main allocated wake rounds event_count = elim (my_open allocated event_count) [
  | none ↦ none
  | some d ↦ some (loop wake rounds event_count d)
]
