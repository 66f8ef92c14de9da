-- ===== src/PollClient/Multi.antt =====
-- 18_wait_queue_poll_fasync/03_poll_select/multi_fd_poll.c: one poll for the standard input and for two
-- files of the driver, which both see every interrupt.
use linux_driver_development.Base.{
  Bool, List, Option, [], false, if◌then◌else◌, ltb_ℤ, none, pos, some, true, ℕ, ℤ, ◌++◌, ◌∷◌,
}
use linux_driver_development.PollClient.{call}
use linux_driver_development.PollSelect.{
  Mask, MyDevData, Wake, in_rdnorm, my_open, my_poll, my_read, nothing,
}
use linux_driver_development.PollSelect.Events.{presses}

-- A round of the loop: `before_poll` interrupts come before poll returns, and `before_first` before the
-- first file is looked at and `before_second` between the two. `typed` is what a read of the standard
-- input returns, if poll reports it; a copy for a file may fail.
pub record Turn : Type 0 where
  pub before_poll : ℕ
  pub before_first : ℕ
  pub before_second : ℕ
  pub typed : Option ℤ
  pub first_fails : Bool
  pub second_fails : Bool

-- The program's messages: what was typed, and what the first or the second file gave.
pub data Message : Type 0 where
  stdin_typed first_received second_received : ℤ → Message

-- A message is printed for more than 0 bytes.
abbrev pub heard : (ℤ → Message) → Option ℤ → List Message
heard message none = []
heard message (some n) = if ltb_ℤ (pos 0) n then message n ∷ [] else []

-- The part of the loop for one file: what its read returns, if poll has reported it.
unfoldable pub look_at : Wake → Bool → Mask → ℕ → MyDevData → Option ℤ × MyDevData
look_at wake fails nothing event_count d = (none, d)
look_at wake fails in_rdnorm event_count d =
    let (n, d') = my_read (call wake fails) event_count d in (some n, d')

-- What the three tests behind poll print, with the data of the files afterwards.
unfoldable pub look_at_all :
    Wake → Turn → ℕ → MyDevData → MyDevData → List Message × MyDevData × MyDevData
unfolding look_at
look_at_all wake t count d1 d2 =
    let count1 = presses t.before_first count in
    let count2 = presses t.before_second count1 in
    let (n1, d1') = look_at wake t.first_fails (my_poll count d1) count1 d1 in
    let (n2, d2') = look_at wake t.second_fails (my_poll count d2) count2 d2 in
    (heard stdin_typed t.typed ++ (heard first_received n1 ++ heard second_received n2), d1', d2')

-- Whether poll returns.
unfoldable pub any_ready : Turn → ℕ → MyDevData → MyDevData → Bool
any_ready t count d1 d2 = elim (my_poll count d1) [
  | in_rdnorm ↦ true
  | nothing ↦ elim (my_poll count d2) [
    | in_rdnorm ↦ true
    | nothing ↦ elim t.typed [ none ↦ false | some n ↦ true ]
  ]
]

-- The `while (1)` over the rounds: the messages until the rounds run out, or a signal ends poll and the
-- loop with it. In a round in which nothing is reported, poll does not return, and only its first
-- interrupts come.
unfoldable pub loop_multi : Wake → List Turn → ℕ → MyDevData → MyDevData → List Message
unfolding look_at_all any_ready
loop_multi wake [] event_count d1 d2 = []
loop_multi wake (t ∷ ts) event_count d1 d2 =
    let count = presses t.before_poll event_count in
    let (messages, d1', d2') = look_at_all wake t count d1 d2 in
    let later = presses t.before_second (presses t.before_first count) in
    let returned = messages ++ loop_multi wake ts later d1' d2' in
    let not_returned = loop_multi wake ts count d1 d2 in
    if any_ready t count d1 d2 then returned else not_returned

-- `main`: both files are opened, with memory for each, and the loop runs.
unfoldable pub main_multi : Bool → Bool → Wake → List Turn → ℕ → Option (List Message)
unfolding loop_multi
main_multi allocated1 allocated2 wake turns event_count = elim (my_open allocated1 event_count) [
  | none ↦ none
  | some d1 ↦ elim (my_open allocated2 event_count) [
    | none ↦ none
    | some d2 ↦ some (loop_multi wake turns event_count d1 d2)
  ]
]
