-- ===== src/BottomHalf.antt =====
-- 12_gpio_irq/top_bottom_half/irq.c: the button's interrupt queues work, and the work toggles the LED.
pub mod Work
pub mod Lifecycle
mod Tests
use linux_driver_development.Base.{
  Bool, [], false, if◌then◌else◌, neg, nonzero, not, pos, suc, true, zero, ℕ, ℤ, ◌&&◌, ◌∷◌,
}
use linux_driver_development.Kernel.{
  Log, Os, acquire, button_pin, irq_line, led_pin, release, touch,
}

-- The LED, and whether `button_work` is queued and its handler runs.
pub record Driver : Type 0 where
  pub led : Bool
  pub pending : Bool
  pub running : Bool

abbrev pub loaded : Driver
loaded = record { led = false; pending = false; running = false }

-- `button_isr`: schedule_work queues the work, unless it is queued already.
unfoldable pub button_isr : Driver → Driver
button_isr d = record d { pending = true }

-- A worker of the kernel takes the work off the queue and enters `button_work_handler`. The kernel
-- runs one handler of a work item at a time.
unfoldable pub enter_handler : Driver → Driver
enter_handler d =
    if d.pending && not d.running then record d { pending = false; running = true } else d

-- `button_work_handler` behind its msleep: the LED is toggled, and the handler returns.
unfoldable pub leave_handler : Driver → Driver
leave_handler d = if d.running then record d { led = not d.led; running = false } else d

-- `my_init` from request_irq on.
unfoldable pub request_line : Os → Log → ℤ × Log
request_line os log =
    if nonzero os.request_irq
    then (neg os.request_irq, release button_pin ∷ release led_pin ∷ log)
    else (pos 0, acquire irq_line ∷ log)

-- `my_init` from the button's pin on.
unfoldable pub request_button : Os → Log → ℤ × Log
unfolding request_line
request_button os log =
    if nonzero (os.gpio_request button_pin)
    then (neg (os.gpio_request button_pin), release led_pin ∷ log)
    else (let log1 = acquire button_pin ∷ log in
        if nonzero (os.gpio_direction button_pin)
        then (neg (os.gpio_direction button_pin), release button_pin ∷ release led_pin ∷ log1)
        else request_line os log1)

unfoldable pub my_init : Os → ℤ × Log
unfolding request_button
my_init os =
    if nonzero (os.gpio_request led_pin)
    then (neg (os.gpio_request led_pin), [])
    else (let log1 = acquire led_pin ∷ [] in
        if nonzero (os.gpio_direction led_pin)
        then (neg (os.gpio_direction led_pin), release led_pin ∷ log1)
        else request_button os log1)

-- The first n calls of `my_exit` before cancel_work_sync: gpio_set_value, gpio_free of both pins and
-- free_irq.
unfoldable pub my_exit_until : ℕ → Log → Log
my_exit_until zero log = log
my_exit_until (suc zero) log = touch led_pin ∷ log
my_exit_until (suc (suc zero)) log = release led_pin ∷ touch led_pin ∷ log
my_exit_until (suc (suc (suc zero))) log =
    release button_pin ∷ release led_pin ∷ touch led_pin ∷ log
my_exit_until (suc (suc (suc (suc n)))) log =
    release irq_line ∷ release button_pin ∷ release led_pin ∷ touch led_pin ∷ log

unfoldable pub my_exit : Log → Log
unfolding my_exit_until
my_exit log = my_exit_until 4 log
