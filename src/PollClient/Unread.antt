-- ===== src/PollClient/Unread.antt =====
-- What multi_fd_poll.c of 18_wait_queue_poll_fasync/03_poll_select prints.
use linux_driver_development.Base.{
  Bool, Bool-cases, List, [], ap, arith, false, if◌then◌else◌, inl, inr, none, not, pos, refl, some,
  suc, true, zero, ℕ, ℤ, ◌%◌, ◌&&◌, ◌++◌, ◌+◌, ◌<◌, ◌==◌, ◌^◌, ◌∷◌, ◌≡◌, ◌≢◌,
}
use linux_driver_development.PollSelect.{
  MyDevData, Wake, consume, in_rdnorm, message_size, my_open, my_poll, my_read, nothing, uint_mod,
}
use linux_driver_development.PollSelect.Events.{presses, presses-eq}
use linux_driver_development.PollClient.Multi.{
  Message, Turn, any_ready, first_received, heard, look_at, look_at_all, loop_multi, main_multi,
  second_received, stdin_typed,
}
use mathlib.Core.Path.{ap₂}

-- The description with no counter: for each file the number of interrupts that it has not read. A file
-- is read exactly if it is not 0 when poll returns.
abbrev pub from_file : (ℤ → Message) → Bool → ℕ → List Message
from_file message fails zero = []
from_file message fails (suc n) = if fails then [] else message (pos message_size) ∷ []

abbrev pub quiet : Turn → ℕ → ℕ → Bool
quiet t n1 n2 = elim t.typed [ none ↦ n1 == 0 && n2 == 0 | some n ↦ false ]

abbrev pub expected_multi : List Turn → ℕ → ℕ → List Message
expected_multi [] n1 n2 = []
expected_multi (t ∷ ts) n1 n2 =
    let unread1 = n1 + t.before_poll in
    let unread2 = n2 + t.before_poll in
    let more1 = if unread1 == 0 then t.before_first + t.before_second else t.before_second in
    let more2 = if unread2 == 0 then t.before_first + t.before_second else 0 in
    let returned =
      heard stdin_typed t.typed
      ++ (from_file first_received t.first_fails unread1
          ++ from_file second_received t.second_fails unread2) in
    let rest = expected_multi ts more1 more2 in
    let idle = expected_multi ts 0 0 in if quiet t unread1 unread2 then idle else returned ++ rest

abbrev pub Few : List Turn → Type 0
Few [] = Unit
Few (t ∷ ts) =
    (t.before_poll < 2 ^ 29) × (t.before_first < 2 ^ 29) × (t.before_second < 2 ^ 29) × Few ts

-- What a file's data and its number have to do with one another at the counter.
abbrev Unread : ℕ → MyDevData → ℕ → Type 0
Unread count d n =
    (d.last_event < uint_mod) × ((d.last_event + n) % uint_mod ≡ count) × (n < 2 ^ 30)

poll-Unread :
    (count : ℕ) (d : MyDevData) (n : ℕ)
    → (d.last_event < uint_mod) × ((d.last_event + n) % uint_mod ≡ count)
    → n < uint_mod
    → my_poll count d ≡ (if n == 0 then nothing else in_rdnorm)
unfolding my_poll
poll-Unread count d n u h = ground (arith, u.0, u.1)

look_at-Unread :
    (wake : Wake) (fails : Bool) (message : ℤ → Message) (count later : ℕ) (d : MyDevData) (n m : ℕ)
    → (d.last_event < uint_mod) × ((d.last_event + n) % uint_mod ≡ count)
    → (count + m) % uint_mod ≡ later
    → n + m < uint_mod
    → let (got, d') = look_at wake fails (my_poll count d) later d in
      (heard message got ≡ from_file message fails n)
      × (d' ≡ (if n == 0 then d else record { last_event = later }))
unfolding look_at my_read consume
look_at-Unread wake fails message count later d zero m u e h =
    ground (arith, poll-Unread count d 0 u)
look_at-Unread wake fails message count later d (suc n) m u e h =
    let apart : d.last_event ≢ later = λ same. absurd (omega arith) in
    ground (arith, poll-Unread count d (suc n) u, apart)

-- One round keeps the files' numbers right.
turn-Unread :
    (wake : Wake) (t : Turn) (start : ℕ) (d1 d2 : MyDevData) (n1 n2 : ℕ)
    → start < uint_mod
    → Unread start d1 n1
    → Unread start d2 n2
    → (t.before_poll < 2 ^ 29) × (t.before_first < 2 ^ 29) × (t.before_second < 2 ^ 29)
    → let count = presses t.before_poll start in
      let (messages, d1', d2') = look_at_all wake t count d1 d2 in
      let later = presses t.before_second (presses t.before_first count) in
      let unread1 = n1 + t.before_poll in
      let unread2 = n2 + t.before_poll in
      (messages
        ≡ heard stdin_typed t.typed
          ++ (from_file first_received t.first_fails unread1
              ++ from_file second_received t.second_fails unread2))
      × (any_ready t count d1 d2 ≡ not (quiet t unread1 unread2))
      × (count < uint_mod)
      × (later < uint_mod)
      × Unread later d1'
          (if unread1 == 0 then t.before_first + t.before_second else t.before_second)
      × Unread later d2' (if unread2 == 0 then t.before_first + t.before_second else 0)
unfolding look_at_all any_ready
turn-Unread wake t start d1 d2 n1 n2 s u1 u2 small =
    let count = presses t.before_poll start in
    let count1 = presses t.before_first count in
    let count2 = presses t.before_second count1 in
    let c = presses-eq t.before_poll start s in
    let c1 = presses-eq t.before_first count (omega (arith, c)) in
    let c2 = presses-eq t.before_second count1 (omega (arith, c1)) in
    let v1 : (d1.last_event + (n1 + t.before_poll)) % uint_mod ≡ count = omega (arith, c) in
    let v2 : (d2.last_event + (n2 + t.before_poll)) % uint_mod ≡ count = omega (arith, c) in
    let e2 : (count + (t.before_first + t.before_second)) % uint_mod ≡ count2 =
      omega (arith, c1, c2) in
    let a1 =
      look_at-Unread wake t.first_fails first_received count count1 d1 (n1 + t.before_poll)
        t.before_first (u1.0, v1) (omega (arith, c1)) (omega arith) in
    let a2 =
      look_at-Unread wake t.second_fails second_received count count2 d2 (n2 + t.before_poll)
        (t.before_first + t.before_second) (u2.0, v2) e2 (omega arith) in
    let p1 = poll-Unread count d1 (n1 + t.before_poll) (u1.0, v1) (omega arith) in
    let p2 = poll-Unread count d2 (n2 + t.before_poll) (u2.0, v2) (omega arith) in
    (
      ap (λ xs. heard stdin_typed t.typed ++ xs) (ap₂ (λ xs ys. xs ++ ys) a1.0 a2.0),
      ground (arith, p1, p2),
      omega (arith, c),
      omega (arith, c2),
      rw (a1.1) (ground (arith, c, c1, c2, v1)),
      rw (a2.1) (ground (arith, c, c1, c2, v2)),
    )

quiet_zero : (t : Turn) (n1 n2 : ℕ) → quiet t n1 n2 ≡ true → (n1 ≡ 0) × (n2 ≡ 0)
quiet_zero t n1 n2 h = ground (arith, h)

idle-Unread :
    (start k : ℕ) (d : MyDevData) (n : ℕ)
    → start < uint_mod
    → Unread start d n
    → n + k ≡ 0
    → Unread (presses k start) d 0
idle-Unread start k d n s u z = let c = presses-eq k start s in (u.0, omega (arith, c), omega arith)

loop_multi-eq :
    (wake : Wake) (ts : List Turn) (start : ℕ) (d1 d2 : MyDevData) (n1 n2 : ℕ)
    → start < uint_mod
    → Unread start d1 n1
    → Unread start d2 n2
    → Few ts
    → loop_multi wake ts start d1 d2 ≡ expected_multi ts n1 n2
unfolding loop_multi
loop_multi-eq wake [] start d1 d2 n1 n2 s u1 u2 f = refl
loop_multi-eq wake (t ∷ ts) start d1 d2 n1 n2 s u1 u2 f =
    let (messages, ready, count_small, later_small, next1, next2) =
      turn-Unread wake t start d1 d2 n1 n2 s u1 u2 (f.0, f.1, f.2) in
    let count = presses t.before_poll start in
    let later = presses t.before_second (presses t.before_first count) in
    let (m, d1', d2') = look_at_all wake t count d1 d2 in
    let unread1 = n1 + t.before_poll in
    let unread2 = n2 + t.before_poll in
    let more1 = if unread1 == 0 then t.before_first + t.before_second else t.before_second in
    let more2 = if unread2 == 0 then t.before_first + t.before_second else 0 in
    let returned = loop_multi-eq wake ts later d1' d2' more1 more2 later_small next1 next2 f.3 in
    elim (Bool-cases (quiet t unread1 unread2)) [
      | inl q ↦
          let (z1, z2) = quiet_zero t unread1 unread2 q in
          let i1 = idle-Unread start t.before_poll d1 n1 s u1 z1 in
          let i2 = idle-Unread start t.before_poll d2 n2 s u2 z2 in
          let idle = loop_multi-eq wake ts count d1 d2 0 0 count_small i1 i2 f.3 in
          ground (arith, q, ready, idle)
      | inr q ↦ ground (arith, q, ready, messages, returned)
    ]

-- Where there is memory for both files, each sees every interrupt for itself: in every round what was
-- typed is printed, and then a file is read exactly if interrupts have come since its own last read;
-- the file read first may have one left over for the next round that the other has taken already. No
-- read ever sleeps: how a sleep would end makes no difference. This holds as long as fewer than 2 ^ 29
-- interrupts come in each part of a round.
pub main_multi-eq_expected :
    (wake : Wake) (turns : List Turn) (event_count : ℕ)
    → event_count < uint_mod
    → Few turns
    → main_multi true true wake turns event_count ≡ some (expected_multi turns 0 0)
unfolding main_multi my_open
main_multi-eq_expected wake turns event_count h f =
    let fresh : MyDevData = record { last_event = event_count } in
    let up_to_date : Unread event_count fresh 0 = (h, omega arith, omega arith) in
    ap some (loop_multi-eq wake turns event_count fresh fresh 0 0 h up_to_date up_to_date f)
