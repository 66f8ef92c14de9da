-- ===== src/PollSelect/Mailbox.antt =====
-- Any number of open files of 18_wait_queue_poll_fasync/03_poll_select/my_poll.c, as mailboxes.
use linux_driver_development.Base.{
  Bool, List, Option, [], arith, false, if◌then◌else◌, inl, inr, none, refl, some, true, ℕ, ◌%◌,
  ◌+◌, ◌<◌, ◌==◌, ◌↔◌, ◌∷◌, ◌≡◌, ◌≢◌, ◌⊎◌,
}
use linux_driver_development.PollSelect.{
  MyDevData, ReadCall, condition_true, consume, in_rdnorm, isr, my_open, my_poll, my_read,
  signal_came, uint_mod,
}
use mathlib.Core.Option

-- `event_count`, and the data of every open file.
pub record Driver : Type 0 where
  pub event_count : ℕ
  pub files : ℕ → Option MyDevData

-- What happens to the driver: an interrupt; a file is opened, which fails without memory, or closed;
-- a read of a file comes, with O_NONBLOCK or without; a reader that waits looks at its condition again;
-- a call of poll.
pub data Event : Type 0 where
  interrupt : Event
  opens : Bool → ℕ → Event
  closes : ℕ → Event
  reads : Bool → Bool → ℕ → Event
  wakes : Bool → ℕ → Event
  polls : ℕ → Event

abbrev pub look : Bool → ReadCall
look fails = record { nonblock = true; wake = signal_came; copy_fails = fails }

-- A read at the time it comes: a blocking one that finds nothing new falls asleep, which changes as
-- little as the signal that may end its sleep.
abbrev arrival : Bool → Bool → ReadCall
arrival nonblock fails = record { nonblock = nonblock; wake = signal_came; copy_fails = fails }

-- A blocking read that is woken up when `event_count` is `count`.
abbrev pub woken_at : Bool → ℕ → ReadCall
woken_at fails count = record { nonblock = false; wake = condition_true count; copy_fails = fails }

-- A reader that found nothing new, and so waits, tests its condition: it sleeps on, or reads.
unfoldable pub wake_up : Bool → ℕ → MyDevData → MyDevData
wake_up fails count d =
    if d.last_event == count then d else (my_read (woken_at fails count) d.last_event d).1

abbrev pub put : ℕ → Option MyDevData → Driver → Driver
put f m d = record d { files = λ g. if g == f then m else d.files g }

-- The driver afterwards.
unfoldable pub happen : Event → Driver → Driver
happen interrupt d = record d { event_count = isr d.event_count }
happen (opens allocated f) d = put f (my_open allocated d.event_count) d
happen (closes f) d = put f none d
happen (reads nonblock fails f) d =
    put f
      (Option.map (λ (m : MyDevData). (my_read (arrival nonblock fails) d.event_count m).1)
        (d.files f))
      d
happen (wakes fails f) d = put f (Option.map (wake_up fails d.event_count) (d.files f)) d
happen (polls f) d = d

unfoldable pub run : List Event → Driver → Driver
unfolding happen
run [] d = d
run (e ∷ es) d = run es (happen e d)

-- The mailboxes that the files stand for: for every open file, the number of interrupts since it was
-- opened or last read with success, or with only the copy to the program failing.
abbrev pub Mailboxes : Type 0
Mailboxes = ℕ → Option ℕ

-- A read empties the mailbox, unless the number in it looks like no interrupt at all.
abbrev pub taken : ℕ → ℕ
taken n = if n % uint_mod == 0 then n else 0

unfoldable pub deliver : Event → Mailboxes → Mailboxes
deliver interrupt m = λ f. Option.map (λ n. n + 1) (m f)
deliver (opens allocated f) m = λ g. if g == f then (if allocated then some 0 else none) else m g
deliver (closes f) m = λ g. if g == f then none else m g
deliver (reads nonblock fails f) m = λ g. if g == f then Option.map taken (m g) else m g
deliver (wakes fails f) m = λ g. if g == f then Option.map taken (m g) else m g
deliver (polls f) m = m

unfoldable pub deliver_all : List Event → Mailboxes → Mailboxes
unfolding deliver
deliver_all [] m = m
deliver_all (e ∷ es) m = deliver_all es (deliver e m)

-- What a file's data and its mailbox have to do with one another at the counter `count`.
abbrev pub Match : ℕ → Option MyDevData → Option ℕ → Type 0
Match count none none = Unit
Match count (some d) (some n) = (d.last_event < uint_mod) × ((d.last_event + n) % uint_mod ≡ count)
Match count none (some n) = ⊥
Match count (some d) none = ⊥

abbrev pub Stands : Driver → Mailboxes → Type 0
Stands d m = (d.event_count < uint_mod) × ((f : ℕ) → Match d.event_count (d.files f) (m f))

Match-isr :
    (count : ℕ) (d : Option MyDevData) (n : Option ℕ)
    → count < uint_mod
    → Match count d n
    → Match (isr count) d (Option.map (λ n. n + 1) n)
unfolding isr
Match-isr count none none h m = tt
Match-isr count (some d) (some n) h m = (m.0, omega arith)
Match-isr count none (some n) h m = m
Match-isr count (some d) none h m = m

-- A read leaves the file up to date, whether it finds an interrupt or not.
caught_up :
    (nonblock fails : Bool) (count : ℕ) (d : MyDevData)
    → (my_read (arrival nonblock fails) count d).1 ≡ record { last_event = count }
unfolding my_read consume
caught_up nonblock fails count d = ground arith

-- And so does a reader that waits, when it looks at its condition.
wake_up-caught_up :
    (fails : Bool) (count : ℕ) (d : MyDevData)
    → wake_up fails count d ≡ record { last_event = count }
unfolding wake_up my_read consume
wake_up-caught_up fails count d = ground arith

Match-taken :
    (count : ℕ) (read : MyDevData → MyDevData) (d : Option MyDevData) (n : Option ℕ)
    → ((file : MyDevData) → read file ≡ record { last_event = count })
    → count < uint_mod
    → Match count d n
    → Match count (Option.map read d) (Option.map taken n)
Match-taken count read none none up h m = tt
Match-taken count read (some d) (some n) up h m = rw (up d) (h, ground arith)
Match-taken count read none (some n) up h m = m
Match-taken count read (some d) none up h m = m

read_one :
    (nonblock fails : Bool) (f g : ℕ) (d : Driver) (m : Mailboxes)
    → Stands d m
    → Match d.event_count
        ((happen (reads nonblock fails f) d).files g)
        (deliver (reads nonblock fails f) m g)
unfolding happen deliver
read_one nonblock fails f g d m h =
    let read = λ (file : MyDevData). (my_read (arrival nonblock fails) d.event_count file).1 in
    let up = caught_up nonblock fails d.event_count in
    let here = Match-taken d.event_count read (d.files g) (m g) up h.0 (h.1 g) in
    ground (arith, here, h.1 g)

wake_one :
    (fails : Bool) (f g : ℕ) (d : Driver) (m : Mailboxes)
    → Stands d m
    → Match d.event_count ((happen (wakes fails f) d).files g) (deliver (wakes fails f) m g)
unfolding happen deliver
wake_one fails f g d m h =
    let read = wake_up fails d.event_count in
    let up = wake_up-caught_up fails d.event_count in
    let here = Match-taken d.event_count read (d.files g) (m g) up h.0 (h.1 g) in
    ground (arith, here, h.1 g)

happen-Stands :
    (e : Event) (d : Driver) (m : Mailboxes) → Stands d m → Stands (happen e d) (deliver e m)
unfolding happen deliver my_open isr
happen-Stands interrupt d m h =
    (omega arith, λ f. Match-isr d.event_count (d.files f) (m f) h.0 (h.1 f))
happen-Stands (opens true f) d m h = (h.0, λ g. ground (arith, h.0, h.1 g))
happen-Stands (opens false f) d m h = (h.0, λ g. ground (arith, h.1 g))
happen-Stands (closes f) d m h = (h.0, λ g. ground (arith, h.1 g))
happen-Stands (reads nonblock fails f) d m h = (h.0, λ g. read_one nonblock fails f g d m h)
happen-Stands (wakes fails f) d m h = (h.0, λ g. wake_one fails f g d m h)
happen-Stands (polls f) d m h = h

run-Stands :
    (es : List Event) (d : Driver) (m : Mailboxes)
    → Stands d m
    → Stands (run es d) (deliver_all es m)
unfolding run deliver_all
run-Stands [] d m h = h
run-Stands (e ∷ es) d m h = run-Stands es (happen e d) (deliver e m) (happen-Stands e d m h)

-- The driver freshly loaded, with no open file.
abbrev pub loaded : Driver
loaded = record { event_count = 0; files = λ f. none }

-- What a caller of poll is told about an open file.
abbrev pub Told : ℕ → Option MyDevData → Option ℕ → Type 0
Told count d m =
    (d ≡ none) × (m ≡ none)
    ⊎ ((file : MyDevData) × (n : ℕ) × (d ≡ some file)
        × (m ≡ some n)
        × ((my_poll count file ≡ in_rdnorm) ↔ (n % uint_mod ≢ 0)))

Match-poll :
    (count : ℕ) (d : MyDevData) (n : ℕ)
    → count < uint_mod
    → Match count (some d) (some n)
    → (my_poll count d ≡ in_rdnorm) ↔ (n % uint_mod ≢ 0)
unfolding my_poll
Match-poll count d n h m = ground (arith, h, m.0, m.1)

Match-Told :
    (count : ℕ) (d : Option MyDevData) (m : Option ℕ)
    → count < uint_mod
    → Match count d m
    → Told count d m
Match-Told count none none h m = inl (refl, refl)
Match-Told count (some d) (some n) h m = inr (d, n, refl, refl, Match-poll count d n h m)
Match-Told count none (some n) h m = absurd m
Match-Told count (some d) none h m = absurd m

-- From loading on, after any sequence of interrupts, of files opened and closed, of polls, and of reads,
-- which may block or not, fall asleep and be woken up by a later interrupt, or fail in their copy: the
-- driver stands for a mailbox for every open file, which counts the interrupts since it was opened or
-- since a read last took them. A file is open in both or in neither, and poll reports data for
-- it exactly when its mailbox holds a number that is no multiple of 2 ^ 32.
pub run-deliver_all :
    (es : List Event) (f : ℕ)
    → Told (run es loaded).event_count ((run es loaded).files f) (deliver_all es (λ g. none) f)
run-deliver_all es f =
    let h = run-Stands es loaded (λ g. none) (omega arith, λ g. tt) in
    Match-Told (run es loaded).event_count ((run es loaded).files f) (deliver_all es (λ g. none) f)
      h.0 (h.1 f)
