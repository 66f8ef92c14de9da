-- ===== src/MutexThreads/Tests.antt =====
-- Runs of 19_kernel_synchronization/01_mutex/my_mutex.c under concrete schedules.
use linux_driver_development.Base.{Bool, List, [], codes, false, refl, ◌∷◌, ◌≡◌, ◌⊎◌}
use linux_driver_development.MutexThreads.{Thread, high, loaded, low, run, step}
use linux_driver_development.MutexThreads.Exclusion.{
  OwnTexts, inside, logged-OwnTexts, mutual_exclusion,
}

abbrev turns : List (Thread × Bool)
turns =
    (high, false) ∷ (low, false) ∷ (high, false) ∷ (low, false) ∷ (high, false) ∷ (high, false) ∷ []

one_message : (run turns loaded).logged ≡ (high, codes "Active: HIGH_HIGH_HIGH") ∷ []
unfolding run step
one_message = refl

mutual_exclusion_example :
    let s = run turns loaded in (inside s.high_pc ≡ false) ⊎ (inside s.low_pc ≡ false)
mutual_exclusion_example = mutual_exclusion turns

logged-OwnTexts_example : OwnTexts (run turns loaded).logged
logged-OwnTexts_example = logged-OwnTexts turns
