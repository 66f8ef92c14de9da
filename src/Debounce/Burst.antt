-- ===== src/Debounce/Burst.antt =====
-- What 12_gpio_irq/irq/irq.c makes of a button that bounces.
-- At a time and with a level of the button: an interrupt, or the kernel looks at its timers.
use linux_driver_development.Base.{
  Bool, List, [], ap, arith, false, if◌then◌else◌, not, refl, some, true, ℕ, ◌%◌, ◌+◌, ◌<◌, ◌==◌,
  ◌^◌, ◌∙◌, ◌∷◌, ◌≡◌, ◌≤◌,
}
use linux_driver_development.Debounce.{
  Driver, button_isr, debounce_timer_callback, jiffies_mod, time_after_eq, timer_tick,
}

pub data Event : Type 0 where
  interrupt : ℕ → ℕ → Event
  tick : ℕ → ℕ → Event

unfoldable pub happen : ℕ → Event → Driver → Driver
unfolding button_isr timer_tick
happen delay (interrupt t level) d = button_isr delay t level d
happen delay (tick t level) d = timer_tick t level d

unfoldable pub run : ℕ → List Event → Driver → Driver
unfolding happen
run delay [] d = d
run delay (e ∷ es) d = run delay es (happen delay e d)

-- The time and the level of the last interrupt.
abbrev pub last_time : ℕ → List Event → ℕ
last_time t [] = t
last_time t (interrupt t' level ∷ es) = last_time t' es
last_time t (tick t' level ∷ es) = last_time t es

abbrev pub last_level : ℕ → List Event → ℕ
last_level level [] = level
last_level level (interrupt t level' ∷ es) = last_level level' es
last_level level (tick t level' ∷ es) = last_level level es

-- Events after an interrupt at the time t: each comes before the delay has passed since the last
-- interrupt before it. Times are below 2 ^ 63.
abbrev pub Bouncing : ℕ → ℕ → List Event → Type 0
Bouncing delay t [] = t + delay < 2 ^ 63
Bouncing delay t (interrupt t' level ∷ es) =
    (t ≤ t') × (t' < t + delay) × (t' + delay < 2 ^ 63) × Bouncing delay t' es
Bouncing delay t (tick t' level ∷ es) =
    (t ≤ t') × (t' < t + delay) × (t + delay < 2 ^ 63) × Bouncing delay t es

-- The driver after an interrupt.
abbrev armed : ℕ → ℕ → ℕ → Bool → Driver
armed delay t level lit = record {
  led = lit;
  last_button_state = level;
  expires = some ((t + delay) % jiffies_mod);
}

not_yet : (now e : ℕ) → now < e → e < 2 ^ 63 → time_after_eq now (e % jiffies_mod) ≡ false
not_yet now e h k = ground arith

in_time : (now e : ℕ) → e ≤ now → now < 2 ^ 63 → time_after_eq now (e % jiffies_mod) ≡ true
in_time now e h k = ground arith

early :
    (delay t level now held : ℕ) (lit : Bool)
    → now < t + delay
    → t + delay < 2 ^ 63
    → timer_tick now held (armed delay t level lit) ≡ armed delay t level lit
unfolding timer_tick
early delay t level now held lit h k = ground (arith, not_yet now (t + delay) h k)

run-Bouncing :
    (delay t level : ℕ) (lit : Bool) (es : List Event)
    → Bouncing delay t es
    → run delay es (armed delay t level lit)
      ≡ armed delay (last_time t es) (last_level level es) lit
unfolding run happen button_isr timer_tick debounce_timer_callback
run-Bouncing delay t level lit [] h = refl
run-Bouncing delay t level lit (interrupt t' l ∷ es) h = run-Bouncing delay t' l lit es h.3
run-Bouncing delay t level lit (tick t' l ∷ es) h =
    ap (run delay es) (early delay t level t' l lit h.1 h.2) ∙ run-Bouncing delay t level lit es h.3

-- A burst of interrupts, each less than the delay after the one before, toggles the LED at no look at
-- the timer during the burst. The first look when the delay has passed since the last interrupt
-- toggles it once, if the button's level is that of the last interrupt, and otherwise leaves it; the
-- looks after that do nothing until the next interrupt. All times are below 2 ^ 63, with the delay
-- added.
pub burst_toggles_once :
    (delay t level now held later held' : ℕ) (es : List Event) (d : Driver)
    → Bouncing delay t es
    → last_time t es + delay ≤ now
    → now < 2 ^ 63
    → let d' = run delay es (button_isr delay t level d) in
      let d'' = timer_tick now held d' in
      (d'.led ≡ d.led)
      × (d''.led ≡ (if held == last_level level es then not d.led else d.led))
      × (timer_tick later held' d'' ≡ d'')
unfolding button_isr timer_tick debounce_timer_callback
burst_toggles_once delay t level now held later held' es d h le fits =
    let burst = run-Bouncing delay t level d.led es h in
    let due = in_time now (last_time t es + delay) le fits in
    (ground (arith, burst), ground (arith, burst, due), ground (arith, burst, due))
