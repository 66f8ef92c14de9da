-- ===== src/ButtonIrq.antt =====
-- `external_gpio_irq_setup`, which several drivers repeat: the button's pin becomes an input and its
-- interrupt line is requested. One version finds the pin by its descriptor, as in
-- 19_kernel_synchronization/02_spinlock/my_spinlock.c, the other requests it by its number, as in
-- 18_wait_queue_poll_fasync/03_poll_select/my_poll.c.
use linux_driver_development.Base.{if◌then◌else◌, nonzero, not, pos, ℤ, ◌∷◌}
use linux_driver_development.Kernel.{Log, Os, acquire, button_pin, irq_line, release}

-- `missing` is what the driver returns where there is no descriptor.
unfoldable pub setup_by_descriptor : ℤ → Os → Log → ℤ × Log
setup_by_descriptor missing os log =
    if not (os.gpio_to_desc button_pin)
    then (missing, log)
    else if nonzero (os.gpio_direction button_pin)
    then (os.gpio_direction button_pin, log)
    else if nonzero os.request_irq
    then (os.request_irq, log)
    else (pos 0, acquire irq_line ∷ log)

unfoldable pub setup_by_number : Os → Log → ℤ × Log
setup_by_number os log =
    if nonzero (os.gpio_request button_pin)
    then (os.gpio_request button_pin, log)
    else if nonzero (os.gpio_direction button_pin)
    then (os.gpio_direction button_pin, release button_pin ∷ acquire button_pin ∷ log)
    else if nonzero os.request_irq
    then (os.request_irq, release button_pin ∷ acquire button_pin ∷ log)
    else (pos 0, acquire irq_line ∷ acquire button_pin ∷ log)
