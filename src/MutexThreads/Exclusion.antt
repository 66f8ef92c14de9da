-- ===== src/MutexThreads/Exclusion.antt =====
-- What the mutex of 19_kernel_synchronization/01_mutex/my_mutex.c gives.
use linux_driver_development.Base.{Bool, List, [], arith, false, some, true, ℕ, ◌∷◌, ◌≡◌, ◌⊎◌}
use linux_driver_development.MutexThreads.{
  Pc, System, Thread, active, high, loaded, locking, low, returned, run, sleeping, step, testing,
  unlocking, writing,
}

-- Between mutex_lock and mutex_unlock.
abbrev pub inside : Pc → Bool
inside testing = false
inside locking = false
inside writing = true
inside sleeping = true
inside unlocking = true
inside returned = false

-- Behind snprintf, and before mutex_unlock.
abbrev pub wrote : Pc → Bool
wrote testing = false
wrote locking = false
wrote writing = false
wrote sleeping = true
wrote unlocking = true
wrote returned = false

-- Every message logs the text of the thread that logs it.
abbrev pub OwnTexts : List (Thread × List ℕ) → Type 0
OwnTexts [] = Unit
OwnTexts (m ∷ ms) = (m.1 ≡ active m.0) × OwnTexts ms

record IsExclusive (s : System) : Type 0 where
  high_owns : inside s.high_pc ≡ true → s.owner ≡ some high
  low_owns : inside s.low_pc ≡ true → s.owner ≡ some low
  high_text : wrote s.high_pc ≡ true → s.shared_buffer ≡ active high
  low_text : wrote s.low_pc ≡ true → s.shared_buffer ≡ active low
  own : OwnTexts s.logged

step-IsExclusive :
    (t : Thread) (stop : Bool) (s : System) → IsExclusive s → IsExclusive (step t stop s)
unfolding step
step-IsExclusive high stop s v = ground arith
step-IsExclusive low stop s v = ground arith

run-IsExclusive :
    (schedule : List (Thread × Bool)) (s : System) → IsExclusive s → IsExclusive (run schedule s)
unfolding run
run-IsExclusive [] s v = v
run-IsExclusive ((t, stop) ∷ rest) s v =
    run-IsExclusive rest (step t stop s) (step-IsExclusive t stop s v)

loaded-IsExclusive : IsExclusive loaded
loaded-IsExclusive = ground arith

-- In no schedule of the two threads from loading on are both between mutex_lock and mutex_unlock.
pub mutual_exclusion :
    (schedule : List (Thread × Bool))
    → let s = run schedule loaded in (inside s.high_pc ≡ false) ⊎ (inside s.low_pc ≡ false)
mutual_exclusion schedule =
    let v = run-IsExclusive schedule loaded loaded-IsExclusive in ground arith

-- In every schedule of the two threads from loading on, each "Exit" message logs the text that its
-- own thread has written: nothing is written between snprintf and the message by the other.
pub logged-OwnTexts : (schedule : List (Thread × Bool)) → OwnTexts (run schedule loaded).logged
logged-OwnTexts schedule = (run-IsExclusive schedule loaded loaded-IsExclusive).own
