-- ===== src/WaitQueue/Read.antt =====
-- One `my_read` of 18_wait_queue_poll_fasync/02_wait_queue/wait_queue.c.
use linux_driver_development.Base.{Bool, arith, false, pos, true, ◌<◌, ◌↔◌, ◌≡◌, ◌⊎◌}
use linux_driver_development.WaitQueue.{ReadCall, condition_true, message_size, my_read}

-- A read succeeds exactly when its copy succeeds and there is data, or it may sleep and is woken by
-- its condition; then it has taken the data. Data that is there is taken by a read whose copy fails
-- too; a read that finds none leaves it so whatever happens.
pub my_read_taken :
    (c : ReadCall) (available : Bool)
    → ((my_read c available).result ≡ pos message_size
        ↔ (c.copy_fails ≡ false)
          × ((available ≡ true) ⊎ (c.nonblock ≡ false) × (c.wake ≡ condition_true)))
      × ((my_read c available).data_available ≡ false)
unfolding my_read
my_read_taken c available = ground arith

-- A read that returns the message puts more bytes to the user's buffer than the caller asked for, if
-- that is less than the message's size.
pub my_read_overruns :
    (c : ReadCall) (available : Bool)
    → (my_read c available).result ≡ pos message_size
    → c.len < message_size
    → c.len < (my_read c available).stored
unfolding my_read
my_read_overruns c available h lt = ground arith
