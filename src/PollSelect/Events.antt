-- ===== src/PollSelect/Events.antt =====
-- What an open file of 18_wait_queue_poll_fasync/03_poll_select/my_poll.c sees of the interrupts.
use linux_driver_development.Base.{
  arith, neg, pos, some, suc, true, zero, ℕ, ◌%◌, ◌+◌, ◌<◌, ◌↔◌, ◌≡◌, ◌≢◌, ◌⊎◌,
}
use linux_driver_development.Kernel.{eagain}
use linux_driver_development.PollSelect.{
  MyDevData, ReadCall, in_rdnorm, isr, my_open, my_poll, my_read, nothing, uint_mod,
}

-- `event_count` after k more interrupts.
unfoldable pub presses : ℕ → ℕ → ℕ
presses zero event_count = event_count
presses (suc k) event_count = presses k (isr event_count)

pub presses-eq : (k count : ℕ) → count < uint_mod → presses k count ≡ (count + k) % uint_mod
unfolding presses isr
presses-eq zero count h = omega arith
presses-eq (suc k) count h = omega (arith, presses-eq k ((count + 1) % uint_mod) (omega arith))

-- poll and a read with O_NONBLOCK agree: poll reports data exactly when the read does not return
-- -EAGAIN, and after such a read poll reports nothing until the next interrupt; a read that returns
-- -EAGAIN leaves the file's data as it is.
pub my_poll_agrees :
    (c : ReadCall) (count : ℕ) (d : MyDevData)
    → c.nonblock ≡ true
    → let r = my_read c count d in
      (my_poll count d ≡ in_rdnorm) × (r.0 ≢ neg (pos eagain)) × (my_poll count r.1 ≡ nothing)
      ⊎ (my_poll count d ≡ nothing) × (r.0 ≡ neg (pos eagain)) × (r.1 ≡ d)
unfolding my_poll my_read
my_poll_agrees c count d h = ground arith

-- A file opened when the counter stands at `count` sees of k interrupts after that whether there
-- were any: poll reports data after them exactly when k is no multiple of 2 ^ 32, the period of the
-- counter.
pub my_poll-presses :
    (count k : ℕ) {d : MyDevData}
    → count < uint_mod
    → my_open true count ≡ some d
    → (my_poll (presses k count) d ≡ in_rdnorm) ↔ (k % uint_mod ≢ 0)
unfolding my_poll my_open
my_poll-presses count k {d} h o =
    (λ p e. ground (arith, presses-eq k count h), λ n. ground (arith, presses-eq k count h))
