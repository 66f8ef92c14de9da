-- ===== src/Spinlock/Tests.antt =====
-- Runs of 19_kernel_synchronization/02_spinlock/my_spinlock.c at concrete inputs.
use linux_driver_development.Base.{
  List, [], arith, codes, if◌then◌else◌, ltb, pos, refl, replicate, some, ℕ, ◌++◌, ◌+◌, ◌∷◌, ◌≡◌,
}
use linux_driver_development.Kernel.{smooth, snprintf, strlen}
use linux_driver_development.Spinlock.{Shared, isr, my_read}
use linux_driver_development.Spinlock.Read.{IsValid, my_read_leaks_stack}

-- "Button pressed! %d" with one digit, then with two.
abbrev format : ℕ → List ℕ
format n = codes "Button pressed! " ++ (if ltb n 10 then (48 + n) ∷ [] else 49 ∷ (38 + n) ∷ [])

abbrev ninth : Shared
ninth = record {
  shared_buffer = codes "Button pressed! 9" ++ replicate 47 0;
  shared_len = 17;
  count = 10;
}

abbrev tenth : Shared
tenth = record {
  shared_buffer = codes "Button pressed! 10" ++ replicate 46 0;
  shared_len = 18;
  count = 11;
}

ninth-IsValid : IsValid ninth
unfolding strlen
ninth-IsValid = record { size = refl; text = refl }

tenth-IsValid : IsValid tenth
unfolding strlen
tenth-IsValid = record { size = refl; text = refl }

pressed_again : isr format ninth ≡ some tenth
unfolding isr snprintf strlen
pressed_again = refl

-- The stack holds 200s.
my_read_leaks_stack_example :
    my_read smooth (replicate 64 200) ninth tenth
    ≡ some (pos 18, codes "Button pressed! 9" ++ (200 ∷ []))
my_read_leaks_stack_example =
    my_read_leaks_stack smooth (replicate 64 200) ninth tenth (λ n. refl) refl ninth-IsValid
      tenth-IsValid (omega arith)
