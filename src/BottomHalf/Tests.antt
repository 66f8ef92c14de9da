-- ===== src/BottomHalf/Tests.antt =====
-- Runs of 12_gpio_irq/top_bottom_half/irq.c at concrete events.
use linux_driver_development.Base.{List, [], false, negsuc, pos, refl, ◌+◌, ◌<◌, ◌∷◌, ◌≡◌, ◌≤◌}
use linux_driver_development.Kernel.{Os, willing}
use linux_driver_development.BottomHalf.{
  button_isr, enter_handler, leave_handler, loaded, my_init, request_button, request_line,
}
use linux_driver_development.BottomHalf.Work.{
  Event, bit, enter, entered, handled, happen, leave, owed, press, presses-toggles, run, toggled,
}

-- The second press comes while the work is queued, the third while its handler runs.
abbrev three_presses : List Event
three_presses = press ∷ press ∷ enter ∷ press ∷ leave ∷ enter ∷ leave ∷ []

merged : (handled three_presses loaded ≡ 2) × ((run three_presses loaded).led ≡ false)
unfolding handled run happen button_isr enter_handler leave_handler
merged = (refl, refl)

presses-toggles_example :
    let d = button_isr (run three_presses loaded) in
    ((run three_presses loaded).led ≡ toggled (handled three_presses loaded) false)
    × (handled three_presses loaded + owed (run three_presses loaded) ≤ 3)
    × (0 < entered (leave ∷ enter ∷ []) d + bit (run (leave ∷ enter ∷ []) d).pending)
presses-toggles_example = presses-toggles three_presses (leave ∷ enter ∷ [])

-- The kernel cannot set the direction of a pin.
abbrev busy : Os
busy = record willing { gpio_direction = λ r. negsuc 15 }

busy_status : (my_init busy).0 ≡ pos 16
unfolding my_init request_button
busy_status = refl

willing_loads : (my_init willing).0 ≡ pos 0
unfolding my_init request_button request_line
willing_loads = refl
