-- ===== src/PollClient/Single.antt =====
-- What test_poll.c and test_select.c of 18_wait_queue_poll_fasync/03_poll_select print.
use linux_driver_development.PollSelect.Events.{presses, presses-eq}
use linux_driver_development.Base.{
  Bool, List, [], ap, arith, if◌then◌else◌, neg, pos, refl, some, suc, true, zero, ℕ, ℤ, ◌%◌, ◌+◌,
  ◌<◌, ◌∷◌, ◌≡◌, ◌≢◌, ◌≤◌,
}
use linux_driver_development.Kernel.{efault}
use linux_driver_development.PollClient.{
  End, Round, buffer_room, call, loop, main, poll_failed, pressed, read_failed, signalled, waiting,
}
use linux_driver_development.PollSelect.{
  MyDevData, Wake, consume, in_rdnorm, message_size, my_open, my_poll, my_read, nothing, uint_mod,
}

-- The description of the loop without a counter: a message for every round with an interrupt in it,
-- until poll or a read fails. `count` is the number of interrupts so far.
abbrev pub expected : List Round → ℕ → List ℤ × End
expected [] count = ([], waiting (count % uint_mod) (record { last_event = count % uint_mod }))
expected (signalled ∷ rounds) count = ([], poll_failed)
expected (pressed zero more fails ∷ rounds) count = expected rounds count
expected (pressed (suc k) more fails ∷ rounds) count =
    if fails then ([], read_failed (neg (pos efault))) else (
      pos message_size ∷ (expected rounds (count + suc k + more)).0,
      (expected rounds (count + suc k + more)).1,
    )

-- No round has 2 ^ 32 interrupts before or behind the return of poll.
abbrev pub Small : List Round → Type 0
Small [] = Unit
Small (signalled ∷ rounds) = Small rounds
Small (pressed k more fails ∷ rounds) = (k + more < uint_mod) × Small rounds

presses-mod : (k count : ℕ) → presses k (count % uint_mod) ≡ (count + k) % uint_mod
presses-mod k count = omega (arith, presses-eq k (count % uint_mod) (omega arith))

-- The data of a file that has seen `count` interrupts.
abbrev pub seen : ℕ → MyDevData
seen count = record { last_event = count % uint_mod }

moved_on : (count k : ℕ) → 0 < k → k < uint_mod → count % uint_mod ≢ (count + k) % uint_mod
moved_on count k h l e = absurd (omega arith)

nothing_new : (count : ℕ) → my_poll (count % uint_mod) (seen count) ≡ nothing
unfolding my_poll
nothing_new count = ground arith

something_new :
    (count k : ℕ) → 0 < k → k < uint_mod → my_poll ((count + k) % uint_mod) (seen count) ≡ in_rdnorm
unfolding my_poll
something_new count k h l = ground (arith, moved_on count k h l)

read_new :
    (wake : Wake) (fails : Bool) (count later : ℕ)
    → count % uint_mod ≢ later % uint_mod
    → my_read (call wake fails) (later % uint_mod) (seen count)
      ≡ ((if fails then neg (pos efault) else pos message_size), seen later)
unfolding my_read consume
read_new wake fails count later h = ground (arith, h)

loop-eq_expected :
    (wake : Wake) (rounds : List Round) (count : ℕ)
    → Small rounds
    → loop wake rounds (count % uint_mod) (seen count) ≡ expected rounds count
unfolding loop
loop-eq_expected wake [] count h = refl
loop-eq_expected wake (signalled ∷ rounds) count h = refl
loop-eq_expected wake (pressed zero more fails ∷ rounds) count h =
    ground (arith, presses-mod 0 count, nothing_new count, loop-eq_expected wake rounds count h.1)
loop-eq_expected wake (pressed (suc k) more fails ∷ rounds) count h =
    let all = count + suc k + more in
    let first = presses-mod (suc k) count in
    let then_more = presses-mod more (count + suc k) in
    let polled = something_new count (suc k) (omega arith) (omega arith) in
    let apart : count % uint_mod ≢ all % uint_mod = λ e. absurd (omega arith) in
    let answer = read_new wake fails count all apart in
    let ih = loop-eq_expected wake rounds all h.1 in
    ground (arith, first, then_more, polled, answer, ih)

-- Run on a file that is just opened, the program prints one whole message for every round in which
-- an interrupt came, and none for a round without one, until a signal ends poll or a copy fails;
-- every message fits its buffer with the closing zero byte, and its read never sleeps: how a sleep
-- would end makes no difference. This holds as long as no round has 2 ^ 32 interrupts.
pub main-eq_expected :
    (wake : Wake) (rounds : List Round) (count : ℕ)
    → Small rounds
    → (main true wake rounds (count % uint_mod) ≡ some (expected rounds count))
      × (message_size ≤ buffer_room)
unfolding main my_open
main-eq_expected wake rounds count h = (ap some (loop-eq_expected wake rounds count h), omega arith)
