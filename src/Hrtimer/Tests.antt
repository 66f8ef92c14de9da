-- ===== src/Hrtimer/Tests.antt =====
-- Runs of 13_hrtimer/my_hrtimer.c at concrete times.
use linux_driver_development.Hrtimer.Timer.{
  Timely, UnderTwoMs, fire, fire_all, hrtimer_forward_now, my_exit-UnderTwoMs, my_init,
}
use linux_driver_development.Base.{List, [], arith, length, refl, ℕ, ◌∷◌, ◌≡◌}
use linux_driver_development.Hrtimer.{hrtimer_callback, loaded, my_exit}
use linux_driver_development.Hrtimer.Samples.{run}

three_callbacks : my_exit (run (100 ∷ 160 ∷ 230 ∷ []) loaded) ≡ 60 ∷ 70 ∷ []
unfolding run my_exit hrtimer_callback
three_callbacks = refl

abbrev late_twice : List ℕ
late_twice = 1000050 ∷ 2999999 ∷ 3000000 ∷ []

late_twice-Timely : Timely (my_init 0 0) late_twice
unfolding my_init fire hrtimer_forward_now
late_twice-Timely = omega arith

my_exit-UnderTwoMs_example :
    let logged = my_exit (fire_all late_twice (my_init 0 0)).sampler in
    (length logged ≡ 2) × UnderTwoMs logged
my_exit-UnderTwoMs_example = my_exit-UnderTwoMs 0 0 late_twice late_twice-Timely

late_twice_lem : my_exit (fire_all late_twice (my_init 0 0)).sampler ≡ 1999949 ∷ 1 ∷ []
unfolding my_exit fire_all fire my_init hrtimer_callback hrtimer_forward_now
late_twice_lem = refl
