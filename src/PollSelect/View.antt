-- ===== src/PollSelect/View.antt =====
-- An open file of 18_wait_queue_poll_fasync/03_poll_select/my_poll.c up to what a program can see of
-- it: the values of the counters are forgotten, and only how far they are apart is kept.
use linux_driver_development.Kernel.{eagain, efault}
use linux_driver_development.Base.{
  Bool, arith, if◌then◌else◌, neg, pos, ℕ, ℤ, ◌%◌, ◌+◌, ◌-◌, ◌<◌, ◌==◌, ◌≡◌,
}
use linux_driver_development.PollSelect.{
  Mask, MyDevData, consume, in_rdnorm, isr, message_size, my_poll, my_read, nothing, uint_mod,
}
use mathlib.Core.Quot
use mathlib.Core.Quot.{Quot, Quot-set}
use native.Mathlib.Nat.{ℕ_set}
use native.Mathlib.Bridge.{le_prop}
use mathlib.Core.HLevel.{Σ_prop_path}
use linux_driver_development.PollSelect.Mailbox.{look}

-- `event_count` and the file's data; both numbers are of type unsigned int.
pub record OpenFile : Type 0 where
  pub event_count : ℕ
  pub file : MyDevData
  pub event_count_fits : event_count < uint_mod
  pub last_event_fits : file.last_event < uint_mod

-- How many events the file is behind, modulo 2 ^ 32.
abbrev behind : OpenFile → ℕ
behind a = (a.event_count + uint_mod - a.file.last_event) % uint_mod

abbrev pub SameDistance : OpenFile → OpenFile → Type 0
SameDistance a b = behind a ≡ behind b

-- Open files up to the distance of their counters.
abbrev pub View : Type 0
View = Quot SameDistance

abbrev pub of_file : OpenFile → View
of_file = Quot.mk

press_file : OpenFile → OpenFile
unfolding isr
press_file a = record {
  event_count = isr a.event_count;
  file = a.file;
  event_count_fits = omega arith;
  last_event_fits = a.last_event_fits;
}

-- A read that does not wait: its result and the file afterwards.
abbrev pub read_result : Bool → OpenFile → ℤ
read_result fails a = (my_read (look fails) a.event_count a.file).0

read_file : Bool → OpenFile → OpenFile
unfolding my_read consume
read_file fails a = record {
  event_count = a.event_count;
  file = (my_read (look fails) a.event_count a.file).1;
  event_count_fits = a.event_count_fits;
  last_event_fits = ground (arith, a.event_count_fits, a.last_event_fits);
}

poll_file : OpenFile → Mask
unfolding my_poll
poll_file a = my_poll a.event_count a.file

-- Each operation sees of a file no more than the distance.
press-SameDistance :
    (a b : OpenFile) → SameDistance a b → SameDistance (press_file a) (press_file b)
unfolding press_file isr
press-SameDistance a b h =
    omega (arith, a.event_count_fits, a.last_event_fits, b.event_count_fits, b.last_event_fits)

read-SameDistance :
    (fails : Bool) (a b : OpenFile)
    → SameDistance a b
    → SameDistance (read_file fails a) (read_file fails b)
unfolding read_file my_read consume
read-SameDistance fails a b h =
    ground (arith, a.event_count_fits, a.last_event_fits, b.event_count_fits, b.last_event_fits)

result-SameDistance :
    (fails : Bool) (a b : OpenFile) → SameDistance a b → read_result fails a ≡ read_result fails b
unfolding my_read consume
result-SameDistance fails a b h =
    ground (arith, a.event_count_fits, a.last_event_fits, b.event_count_fits, b.last_event_fits)

poll-SameDistance : (a b : OpenFile) → SameDistance a b → poll_file a ≡ poll_file b
unfolding poll_file my_poll
poll-SameDistance a b h =
    ground (arith, a.event_count_fits, a.last_event_fits, b.event_count_fits, b.last_event_fits)

pub press : View → View
press =
    Quot.lift Quot-set (λ a. of_file (press_file a))
      (λ a b h. Quot.sound (press-SameDistance a b h))

pub read : Bool → View → View
read fails =
    Quot.lift Quot-set (λ a. of_file (read_file fails a))
      (λ a b h. Quot.sound (read-SameDistance fails a b h))

pub result : Bool → View → ℤ
result fails = Quot.lift (hlevel) (read_result fails) (result-SameDistance fails)

pub poll : View → Mask
poll = Quot.lift (hlevel) poll_file poll-SameDistance

-- The numbers of type unsigned int.
abbrev pub Distance : Type 0
Distance = (n : ℕ) × (n < uint_mod)

pub Distance-ext : (m n : Distance) → m.0 ≡ n.0 → m ≡ n
Distance-ext m n h = Σ_prop_path (λ n. le_prop) h

file_distance : OpenFile → Distance
file_distance a = (behind a, omega arith)

pub distance : View → Distance
unfolding file_distance
distance =
    Quot.lift (hlevel le_prop) file_distance
      (λ a b h. Distance-ext (file_distance a) (file_distance b) h)

-- A file that is that far behind.
pub at_distance : Distance → View
at_distance n = of_file (record {
  event_count = n.0;
  file = record { last_event = 0 };
  event_count_fits = n.1;
  last_event_fits = omega arith;
})

pub distance-at_distance : (n : Distance) → distance (at_distance n) ≡ n
unfolding distance at_distance
distance-at_distance n = Distance-ext _ n (omega (arith, n.1))

pub at_distance-distance : (v : View) → at_distance (distance v) ≡ v
unfolding distance at_distance file_distance
at_distance-distance =
    Quot.ind (λ v. Quot-set _ _)
      (λ a. Quot.sound (omega (arith, a.event_count_fits, a.last_event_fits)))

pub distance-press : (v : View) → (distance (press v)).0 ≡ ((distance v).0 + 1) % uint_mod
unfolding distance press file_distance press_file isr
distance-press =
    Quot.ind (λ v. ℕ_set _ _) (λ a. omega (arith, a.event_count_fits, a.last_event_fits))

pub distance-read : (fails : Bool) (v : View) → (distance (read fails v)).0 ≡ 0
unfolding distance read file_distance read_file my_read consume
distance-read fails =
    Quot.ind (λ v. ℕ_set _ _) (λ a. ground (arith, a.event_count_fits, a.last_event_fits))

pub poll-distance : (v : View) → poll v ≡ (if (distance v).0 == 0 then nothing else in_rdnorm)
unfolding distance poll file_distance poll_file my_poll
poll-distance = Quot.ind (λ v. hlevel) (λ a. ground (arith, a.event_count_fits, a.last_event_fits))

pub result-distance :
    (fails : Bool) (v : View)
    → result fails v ≡ (
        if (distance v).0 == 0
        then neg (pos eagain)
        else if fails
        then neg (pos efault)
        else pos message_size)
unfolding distance result file_distance my_read consume
result-distance fails =
    Quot.ind (λ v. hlevel) (λ a. ground (arith, a.event_count_fits, a.last_event_fits))
