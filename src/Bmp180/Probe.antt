-- ===== src/Bmp180/Probe.antt =====
-- `bmp180_probe`, `bmp180_remove`, `bmp180_init` and `bmp180_exit` of
-- 15_bmp180_i2c_sensor/sensor_read/bmp180_i2c_driver.c.
use linux_driver_development.Base.{
  Bool, Bool-cases, Option, [], arith, false, if◌then◌else◌, inl, inr, neg, none, nonzero, not, pos,
  refl, some, suc, true, ℕ, ℤ, ◌&&◌, ◌∷◌, ◌≡◌, ◌⊎◌,
}
use linux_driver_development.Kernel.{
  Log, Ptr, Settles, acquire, acquire_on, bus_adapter, bus_client, bus_driver, enomem, err_ptr,
  is_err, is_valid, ledger, null, ptr_err, release, sysfs_group, touch, valid,
}
use linux_driver_development.Bmp180.{BmpCalib, I2c, Result, bmp_read_calib, err, ok}
use linux_driver_development.Bmp180.Show.{BmpClient}

-- The kernel's answers: statuses, pointers, and whether devm_kzalloc returns memory.
pub record BusOs : Type 0 where
  pub i2c_add_driver : ℤ
  pub i2c_get_adapter : Ptr
  pub i2c_new_client_device : Ptr
  pub devm_kzalloc : Bool
  pub sysfs_create_group : ℤ

-- The status of the probe, the client data that the show functions find afterwards, and the calls
-- made. What devm_kzalloc gave goes back by itself when a probe fails, and the client data with it.
pub bmp180_probe : BusOs → I2c → ℤ × Option BmpClient × Log
bmp180_probe os bus =
    if not os.devm_kzalloc then (neg (pos enomem), none, []) else elim (bmp_read_calib bus) [
      | err e ↦ (e, none, [])
      | ok c ↦
          if nonzero os.sysfs_create_group
          then (os.sysfs_create_group, none, [])
          else (pos 0, some (record { calib = c; oversample = 3 }), acquire sysfs_group ∷ [])
    ]

pub bmp180_remove : Log → Log
bmp180_remove log = release sysfs_group ∷ log

-- The second test of `ret` in `bmp180_init` finds the 0 that the first left. i2c_new_client_device
-- works with the adapter, and i2c_put_adapter does nothing with NULL.
pub bmp180_init : BusOs → ℤ × Log
bmp180_init os =
    if nonzero os.i2c_add_driver
    then (os.i2c_add_driver, [])
    else (let found = is_valid os.i2c_get_adapter in
        let created = is_valid os.i2c_new_client_device in
        let log0 = acquire bus_driver ∷ [] in
        let log1 = if found then acquire bus_adapter ∷ log0 else log0 in
        let log2 =
          if created then acquire_on bus_adapter bus_client ∷ log1 else touch bus_adapter ∷ log1 in
        let log3 = if found then release bus_adapter ∷ log2 else log2 in
        if is_err os.i2c_new_client_device
        then (ptr_err os.i2c_new_client_device, release bus_driver ∷ log3)
        else (pos 0, log3))

-- `bmp180_exit`, whose client pointer is not NULL after a successful `bmp180_init`.
pub bmp180_exit : Log → Log
bmp180_exit log = release bus_driver ∷ release bus_client ∷ log

-- Where the bus has its adapter and i2c_new_client_device returns a client or an error pointer with a
-- code other than 0, `bmp180_init` returns 0 and holds the driver and the client, which `bmp180_exit`
-- gives back; or it returns a status other than 0 and holds nothing.
pub bmp180_init-Settles :
    (os : BusOs)
    → os.i2c_get_adapter ≡ valid
    → (os.i2c_new_client_device ≡ valid) ⊎ ((e : ℕ) × (os.i2c_new_client_device ≡ err_ptr (suc e)))
    → Settles (bus_client ∷ bus_driver ∷ []) (bmp180_init os)
      × ((bmp180_init os).0 ≡ pos 0 → ledger (bmp180_exit (bmp180_init os).1) ≡ some [])
unfolding bmp180_init bmp180_exit ledger
bmp180_init-Settles os a c = ground arith

-- Where the bus has no adapter, i2c_get_adapter returns NULL, and `bmp180_init` goes on to work with
-- an adapter that it does not hold, whatever the other calls return.
pub bmp180_missing_adapter :
    (os : BusOs)
    → os.i2c_add_driver ≡ pos 0
    → os.i2c_get_adapter ≡ null
    → ledger (bmp180_init os).1 ≡ none
unfolding bmp180_init ledger
bmp180_missing_adapter os a n = ground arith

Result-cases : {A : Type 0} (r : Result A) → ((a : A) × (r ≡ ok a)) ⊎ ((e : ℤ) × (r ≡ err e))
Result-cases (ok a) = inl (a, refl)
Result-cases (err e) = inr (e, refl)

-- A probe either has memory, reads the coefficients and creates the files: then it returns 0, the
-- show functions find those coefficients and an oversampling of 3, and `bmp180_remove` gives back the
-- one group that is held. Or it holds nothing, leaves no client data, and returns -ENOMEM without
-- memory, else the error of the coefficients, else that of the files, which is not 0.
pub bmp180_probe_outcome :
    (os : BusOs) (bus : I2c)
    → ((c : BmpCalib) × (bmp_read_calib bus ≡ ok c)
        × (bmp180_probe os bus
            ≡ (pos 0, some (record { calib = c; oversample = 3 }), acquire sysfs_group ∷ []))
        × (ledger (bmp180_remove (bmp180_probe os bus).2) ≡ some []))
      ⊎ ((bmp180_probe os bus).1 ≡ none)
        × ((bmp180_probe os bus).2 ≡ [])
        × (((bmp180_probe os bus).0 ≡ neg (pos enomem)) × (os.devm_kzalloc ≡ false)
            ⊎ (bmp_read_calib bus ≡ err (bmp180_probe os bus).0)
            ⊎ ((bmp180_probe os bus).0 ≡ os.sysfs_create_group)
              × (nonzero os.sysfs_create_group ≡ true))
unfolding bmp180_probe bmp180_remove ledger
bmp180_probe_outcome os bus =
    elim (Bool-cases (os.devm_kzalloc && not (nonzero os.sysfs_create_group))) [
      | inl fine ↦ elim (Result-cases (bmp_read_calib bus)) [
        | inl (c, e) ↦ inl (c, e, ground arith, ground arith)
        | inr (z, e) ↦ inr (ground arith, ground arith, inr (inl (ground arith)))
      ]
      | inr bad ↦ elim (Result-cases (bmp_read_calib bus)) [
        | inl (c, e) ↦ inr (ground arith, ground arith, ground arith)
        | inr (z, e) ↦ inr (ground arith, ground arith, ground arith)
      ]
    ]
