-- ===== src/GpioCtrl/Tests.antt =====
-- The drivers of 11_gpio_ctrl with kernels that answer differently.
use linux_driver_development.Base.{
  Bool-cases, [], if◌then◌else◌, inl, inr, negsuc, none, pos, refl, some, true, ◌-ℤ◌, ◌≡◌, ◌⊎◌,
}
use linux_driver_development.Kernel.{Os, button_pin, ledger, same, willing}
use linux_driver_development.GpioCtrl.RequestFree.{
  Negative, kept, my_exit, my_init, request_free_failure_kept,
}

-- The pin of the button is taken already.
abbrev busy : Os
busy = record willing { gpio_request = λ r. if same r button_pin then negsuc 15 else pos 0 }

busy-Negative : Negative busy
busy-Negative r = elim (Bool-cases (same r button_pin)) [
  | inl b ↦ (inr (rw b refl), inl refl)
  | inr b ↦ (inl (rw b refl), inl refl)
]

request_free_failure_kept_example :
    (kept (my_init busy).0 ≡ true)
    × (((my_init busy).0 ≡ pos 0)
        ⊎ (ledger (my_init busy).1.log ≡ some []) × (ledger (my_exit (my_init busy).1).log ≡ none))
request_free_failure_kept_example = request_free_failure_kept busy busy-Negative

-- No pin can be had: the kernel keeps the module, with a positive status.
none_free : (my_init (record willing { gpio_request = λ r. negsuc 15 })).0 ≡ pos 16
unfolding my_init ◌-ℤ◌
none_free = refl
