-- ===== src/Loader.antt =====
-- The kernel's loader, which calls `my_init` and `my_exit` of a module: any sequence of insmod and rmmod.
-- The modules are those of the drivers, each seen through the two functions and what it holds.
pub mod Life
pub mod Course
pub mod Clean
pub mod Leaks
mod Tests
use linux_driver_development.Base.{
  Bool, List, [], false, if◌then◌else◌, is_neg, nonzero, not, pos, some, true, ℤ, ◌++◌, ◌∷◌, ◌≡◌,
}
use linux_driver_development.Kernel.{Log, Os, Resource, Settles, ledger}

pub record Module : Type 0 where
  pub my_init : Os → ℤ × Log
  pub my_exit : Log → Log
  -- what the module holds while it is loaded
  pub resources : List Resource

-- What makes a module clean under the answers of the kernel for which `Fine` holds: a failed load is
-- told by a negative status and leaves nothing behind, and unloading gives back all. `my_exit` makes its
-- calls whatever was called before.
pub record IsClean (M : Module) (Fine : Os → Type 0) : Type 0 where
  pub my_init-Settles : (os : Os) → Fine os → Settles M.resources (M.my_init os)
  pub is_neg-my_init :
      (os : Os) → Fine os → nonzero (M.my_init os).0 ≡ true → is_neg (M.my_init os).0 ≡ true
  pub ledger-my_exit :
      (os : Os) → Fine os → (M.my_init os).0 ≡ pos 0 → ledger (M.my_exit (M.my_init os).1) ≡ some []
  pub my_exit-append : (new old : Log) → M.my_exit (new ++ old) ≡ M.my_exit new ++ old

-- Whether the module is loaded, and every call of its life, newest first.
pub record System : Type 0 where
  pub loaded : Bool
  pub log : Log

abbrev pub booted : System
booted = record { loaded = false; log = [] }

-- `insmod`, with the kernel's answers to `my_init`, or `rmmod`.
pub data Event : Type 0 where
  insmod : Os → Event
  rmmod : Event

-- The kernel takes a status that is not negative for success, and calls `my_init` only of a module that
-- is not loaded and `my_exit` only of one that is.
unfoldable pub happen : Module → Event → System → System
happen M (insmod os) s =
    if s.loaded
    then s
    else (let (status, new) = M.my_init os in
        record { loaded = not (is_neg status); log = new ++ s.log })
happen M rmmod s = if s.loaded then record { loaded = false; log = M.my_exit s.log } else s

unfoldable pub run : Module → List Event → System → System
unfolding happen
run M [] s = s
run M (e ∷ es) s = run M es (happen M e s)

-- Every load of the sequence meets the condition.
abbrev pub AllFine : (Os → Type 0) → List Event → Type 0
AllFine Fine [] = Unit
AllFine Fine (insmod os ∷ es) = Fine os × AllFine Fine es
AllFine Fine (rmmod ∷ es) = AllFine Fine es
