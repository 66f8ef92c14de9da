-- ===== src/BottomHalf/Work.antt =====
-- The interrupts and the work of 12_gpio_irq/top_bottom_half/irq.c in any order.
use linux_driver_development.Base.{
  Bool, List, [], arith, false, if◌then◌else◌, not, refl, suc, true, zero, ℕ, ◌&&◌, ◌+◌, ◌<◌, ◌∷◌,
  ◌≡◌, ◌≤◌,
}
use linux_driver_development.BottomHalf.{Driver, button_isr, enter_handler, leave_handler, loaded}

pub data Event : Type 0 where
  press enter leave : Event

unfoldable pub happen : Event → Driver → Driver
unfolding button_isr enter_handler leave_handler
happen press d = button_isr d
happen enter d = enter_handler d
happen leave d = leave_handler d

unfoldable pub run : List Event → Driver → Driver
unfolding happen
run [] d = d
run (e ∷ es) d = run es (happen e d)

-- The presses, and the handlers that have returned.
abbrev pub presses : List Event → ℕ
presses [] = 0
presses (press ∷ es) = suc (presses es)
presses (enter ∷ es) = presses es
presses (leave ∷ es) = presses es

unfoldable pub handled : List Event → Driver → ℕ
unfolding happen
handled [] d = 0
handled (press ∷ es) d = handled es (happen press d)
handled (enter ∷ es) d = handled es (happen enter d)
handled (leave ∷ es) d =
    if d.running then suc (handled es (happen leave d)) else handled es (happen leave d)

abbrev pub bit : Bool → ℕ
bit true = 1
bit false = 0

-- What is queued or runs.
abbrev pub owed : Driver → ℕ
owed d = bit d.pending + bit d.running

-- The handlers that have returned and the work still queued or running are no more than the work at
-- the start and the presses since.
handled-le : (es : List Event) (d : Driver) → handled es d + owed (run es d) ≤ owed d + presses es
unfolding handled run happen button_isr enter_handler leave_handler
handled-le [] d = omega arith
handled-le (press ∷ es) d = ground (arith, handled-le es (button_isr d))
handled-le (enter ∷ es) d = ground (arith, handled-le es (enter_handler d))
handled-le (leave ∷ es) d = ground (arith, handled-le es (leave_handler d))

-- The handlers that a worker enters.
unfoldable pub entered : List Event → Driver → ℕ
unfolding happen
entered [] d = 0
entered (press ∷ es) d = entered es (happen press d)
entered (enter ∷ es) d =
    if d.pending && not d.running
    then suc (entered es (happen enter d))
    else entered es (happen enter d)
entered (leave ∷ es) d = entered es (happen leave d)

-- Queued work stays queued until a handler is entered.
entered-positive :
    (es : List Event) (d : Driver) → 0 < bit d.pending → 0 < entered es d + bit (run es d).pending
unfolding entered run happen button_isr enter_handler leave_handler
entered-positive [] d h = omega arith
entered-positive (press ∷ es) d h = ground (arith, entered-positive es (button_isr d))
entered-positive (enter ∷ es) d h = ground (arith, entered-positive es (enter_handler d))
entered-positive (leave ∷ es) d h = ground (arith, entered-positive es (leave_handler d))

-- The LED after a number of toggles.
abbrev pub toggled : ℕ → Bool → Bool
toggled zero b = b
toggled (suc n) b = toggled n (not b)

-- Whatever happens, the LED is toggled exactly by the handlers that have returned.
led-handled : (es : List Event) (d : Driver) → (run es d).led ≡ toggled (handled es d) d.led
unfolding handled run happen button_isr enter_handler leave_handler
led-handled [] d = refl
led-handled (press ∷ es) d = led-handled es (button_isr d)
led-handled (enter ∷ es) d = ground (arith, led-handled es (enter_handler d))
led-handled (leave ∷ es) d = ground (arith, led-handled es (leave_handler d))

-- From loading on, in any order of presses and of the work's handler: the LED is as it is after as many
-- toggles of the LED that is off as handlers have returned, and these are, with the work that is queued
-- or runs, at most as many as the presses. And at any time after a press, a handler has been entered
-- since that press, or the work is queued: presses may merge, but none is lost, not even while a
-- handler runs.
pub presses-toggles :
    (es after : List Event)
    → let d = button_isr (run es loaded) in
      ((run es loaded).led ≡ toggled (handled es loaded) false)
      × (handled es loaded + owed (run es loaded) ≤ presses es)
      × (0 < entered after d + bit (run after d).pending)
unfolding button_isr
presses-toggles es after = (
  led-handled es loaded,
  omega (arith, handled-le es loaded),
  entered-positive after (button_isr (run es loaded)) (omega arith),
)
