-- ===== src/FileOps/OpenClose.antt =====
-- 07_file_cdev_fops/01_file_ops/test1.c, run against the driver beside it: it opens and closes the
-- device four times, each time with other flags.
use linux_driver_development.Base.{
  Bool, List, Option, [], arith, if◌then◌else◌, is_neg, negsuc, none, not, pos, some, suc, true,
  zero, ℕ, ℤ, ◌&&◌, ◌+◌, ◌↔◌, ◌∷◌, ◌≡◌,
}
use linux_driver_development.FileOps.{Device, my_open, my_release}

-- What the program prints, with the number of the attempt.
pub data Message : Type 0 where
  failed_to_open file_opened failed_to_close file_closed : ℕ → Message

-- The messages, what `main` returns, and the device.
pub record Outcome : Type 0 where
  pub messages : List Message
  pub status : ℤ
  pub device : Device

abbrev say : Message → Outcome → Outcome
say m o = record o { messages = m ∷ o.messages }

abbrev ends : Message → ℤ → Device → Outcome
ends m status d = record { messages = m ∷ []; status = status; device = d }

-- The attempt number n and what follows it. `opens` says whether the kernel finds the file and lets
-- the program open it.
unfoldable pub attempt : (ℕ → Bool) → ℕ → (Device → Outcome) → Device → Outcome
unfolding my_open my_release
attempt opens n next d =
    if not (opens n)
    then ends (failed_to_open n) (negsuc 0) d
    else (let (fd, d1) = my_open d in
        if is_neg fd
        then ends (failed_to_open n) (negsuc 0) d1
        else (let (ret, d2) = my_release d1 in
            say (file_opened n) (
              if is_neg ret
              then ends (failed_to_close n) ret d2
              else say (file_closed n) (next d2))))

pub main : (ℕ → Bool) → Device → Outcome
unfolding attempt
main opens = attempt opens 0 (
    attempt opens 1 (
      attempt opens 2
        (attempt opens 3 (λ d. record { messages = []; status = pos 0; device = d }))))

-- How many files are open behind these messages; `none` if a file is closed that is not open.
abbrev pub open_files : List Message → ℕ → Option ℕ
open_files [] n = some n
open_files (file_opened i ∷ ms) n = open_files ms (n + 1)
open_files (file_closed i ∷ ms) zero = none
open_files (file_closed i ∷ ms) (suc n) = open_files ms n
open_files (failed_to_open i ∷ ms) n = open_files ms n
open_files (failed_to_close i ∷ ms) n = open_files ms n

-- Whichever of the four attempts fails, the program closes every file that it opens before it opens
-- another or ends, returns 0 exactly when all four can be opened, and leaves the device as it was.
pub main_closes_all :
    (opens : ℕ → Bool) (d : Device)
    → (open_files (main opens d).messages 0 ≡ some 0)
      × ((main opens d).status ≡ pos 0 ↔ opens 0 && (opens 1 && (opens 2 && opens 3)) ≡ true)
      × ((main opens d).device ≡ d)
unfolding main
main_closes_all opens d = (ground arith, (ground arith, ground arith), ground arith)
