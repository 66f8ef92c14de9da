-- ===== src/BottomHalf/Lifecycle.antt =====
-- Loading and unloading the module of 12_gpio_irq/top_bottom_half/irq.c.
use linux_driver_development.Base.{
  [], arith, false, is_neg, none, pos, pos_part, some, suc, zero, ℕ, ◌∷◌, ◌≡◌, ◌≤◌,
}
use linux_driver_development.Kernel.{
  Os, Resource, Settles, button_pin, irq_line, led_pin, ledger, touch,
}
use linux_driver_development.BottomHalf.{
  my_exit, my_exit_until, my_init, request_button, request_line,
}

-- `my_init` returns 0 and holds both pins and the interrupt line, which `my_exit` gives back; or it
-- returns a number other than 0 and holds nothing. But where the kernel's statuses are 0 or negative,
-- as documented, it never returns a negative number, which the kernel would take for a failure.
pub my_init_never_negative :
    (os : Os)
    → ((r : Resource) → pos_part (os.gpio_request r) ≡ 0)
    → ((r : Resource) → pos_part (os.gpio_direction r) ≡ 0)
    → pos_part os.request_irq ≡ 0
    → Settles (irq_line ∷ button_pin ∷ led_pin ∷ []) (my_init os)
      × ((my_init os).0 ≡ pos 0 → ledger (my_exit (my_init os).1) ≡ some [])
      × (is_neg (my_init os).0 ≡ false)
unfolding my_init my_exit my_exit_until request_button request_line ledger
my_init_never_negative os a b c =
    ground (arith, a led_pin, a button_pin, b led_pin, b button_pin, c)

-- If the work's handler toggles the LED behind the gpio_free calls of `my_exit`, which come before
-- cancel_work_sync, it works with a pin that is not held.
pub handler_races_exit :
    (os : Os) (n : ℕ)
    → (my_init os).0 ≡ pos 0
    → 2 ≤ n
    → ledger (touch led_pin ∷ my_exit_until n (my_init os).1) ≡ none
unfolding my_init my_exit_until request_button request_line ledger
handler_races_exit os zero h k = absurd (omega arith)
handler_races_exit os (suc zero) h k = absurd (omega arith)
handler_races_exit os (suc (suc zero)) h k = ground arith
handler_races_exit os (suc (suc (suc zero))) h k = ground arith
handler_races_exit os (suc (suc (suc (suc n)))) h k = ground arith
