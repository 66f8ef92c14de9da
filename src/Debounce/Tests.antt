-- ===== src/Debounce/Tests.antt =====
-- Runs of 12_gpio_irq/irq/irq.c at concrete times.
use linux_driver_development.Base.{List, [], arith, false, none, refl, true, ◌++◌, ◌∷◌, ◌≡◌}
use linux_driver_development.Debounce.{Driver, button_isr, debounce_timer_callback, timer_tick}
use linux_driver_development.Debounce.Burst.{
  Event, burst_toggles_once, happen, interrupt, run, tick,
}

-- The button bounces twice, and the kernel looks at the timer in between.
abbrev bounces : List Event
bounces = interrupt 1002 1 ∷ tick 1003 0 ∷ interrupt 1004 0 ∷ []

abbrev dark : Driver
dark = record { led = false; last_button_state = 1; expires = none }

lit_once :
    (run 5 (bounces ++ (tick 1010 0 ∷ tick 1020 0 ∷ [])) (button_isr 5 1000 0 dark)).led ≡ true
unfolding run happen button_isr timer_tick debounce_timer_callback
lit_once = refl

burst_toggles_once_example :
    let d' = run 5 bounces (button_isr 5 1000 0 dark) in
    let d'' = timer_tick 1010 0 d' in
    (d'.led ≡ false) × (d''.led ≡ true) × (timer_tick 1020 1 d'' ≡ d'')
burst_toggles_once_example =
    burst_toggles_once 5 1000 0 1010 0 1020 1 bounces dark
      (
        omega arith,
        omega arith,
        omega arith,
        (
          omega arith,
          omega arith,
          omega arith,
          (omega arith, omega arith, omega arith, omega arith),
        ),
      )
      (omega arith) (omega arith)
