-- ===== src/PollSelect/Observed.antt =====
-- What a program can find out about an open file of 18_wait_queue_poll_fasync/03_poll_select/my_poll.c.
use linux_driver_development.Base.{
  Bool, ap, arith, if◌then◌else◌, neg, pos, suc, sym, zero, ℕ, ◌%◌, ◌+◌, ◌-◌, ◌==◌, ◌∙◌, ◌≡◌,
}
use linux_driver_development.Kernel.{eagain, efault, same}
use linux_driver_development.PollSelect.{in_rdnorm, message_size, nothing, uint_mod}
use linux_driver_development.PollSelect.View.{
  Distance, Distance-ext, View, at_distance, at_distance-distance, distance, distance-at_distance,
  distance-press, distance-read, poll, poll-distance, press, read, result, result-distance,
}

-- Open files, up to the values of their counters, are the numbers below 2 ^ 32, and the driver's
-- operations are: an interrupt adds 1 modulo 2 ^ 32; a read that does not wait sets 0, and returns
-- -EAGAIN at 0, or else -EFAULT or the message's size, as its copy goes; poll reports data unless
-- the number is 0.
pub view_is_distance :
    ((v : View) → at_distance (distance v) ≡ v)
    × ((n : Distance) → distance (at_distance n) ≡ n)
    × ((v : View) → (distance (press v)).0 ≡ ((distance v).0 + 1) % uint_mod)
    × ((fails : Bool) (v : View) → (distance (read fails v)).0 ≡ 0)
    × ((fails : Bool) (v : View)
        → result fails v ≡ (
            if (distance v).0 == 0
            then neg (pos eagain)
            else if fails
            then neg (pos efault)
            else pos message_size))
    × ((v : View) → poll v ≡ (if (distance v).0 == 0 then nothing else in_rdnorm))
view_is_distance = (
  at_distance-distance, distance-at_distance, distance-press, distance-read, result-distance,
  poll-distance,
)

-- k interrupts.
abbrev pub press_times : ℕ → View → View
press_times zero v = v
press_times (suc k) v = press_times k (press v)

distance-press_times :
    (k : ℕ) (v : View) → (distance (press_times k v)).0 ≡ ((distance v).0 + k) % uint_mod
distance-press_times zero v = omega (arith, (distance v).1)
distance-press_times (suc k) v = omega (arith, distance-press_times k (press v), distance-press v)

View-ext : (x y : View) → (distance x).0 ≡ (distance y).0 → x ≡ y
View-ext x y h =
    sym (at_distance-distance x)
    ∙ (ap at_distance (Distance-ext (distance x) (distance y) h) ∙ at_distance-distance y)

-- Two open files for which poll gives the same answer after any number of interrupts are the same up
-- to the values of their counters.
pub poll-ext : (x y : View) → ((k : ℕ) → poll (press_times k x) ≡ poll (press_times k y)) → x ≡ y
poll-ext x y same = View-ext x y (
    ground (
      arith,
      same (uint_mod - (distance x).0),
      poll-distance (press_times (uint_mod - (distance x).0) x),
      poll-distance (press_times (uint_mod - (distance x).0) y),
      distance-press_times (uint_mod - (distance x).0) x,
      distance-press_times (uint_mod - (distance x).0) y,
      (distance x).1,
      (distance y).1,
    ))
