-- ===== src/I2cDriver.antt =====
-- 15_bmp180_i2c_sensor/bmp180_i2c_driver.c: a driver that registers itself and makes its device. The
-- kernel's answers are those of Bmp180.Probe. `my_probe` and `my_remove` change no state.
mod Tests
use linux_driver_development.Base.{
  [], arith, if◌then◌else◌, none, nonzero, pos, some, suc, true, ℕ, ℤ, ◌∷◌, ◌≡◌, ◌⊎◌,
}
use linux_driver_development.Kernel.{
  Log, acquire, acquire_on, bus_adapter, bus_client, bus_driver, err_ptr, is_err, is_null, is_valid,
  ledger, null, ptr_err, release, touch, valid,
}
use linux_driver_development.Bmp180.Probe.{BusOs}

-- i2c_new_client_device works with the adapter, whether there is one or not: i2c_get_adapter returns
-- NULL for a bus that does not exist, and the test is IS_ERR.
pub my_init : BusOs → ℤ × Log
my_init os =
    if nonzero os.i2c_add_driver
    then (os.i2c_add_driver, [])
    else if is_err os.i2c_get_adapter
    then (ptr_err os.i2c_get_adapter, release bus_driver ∷ acquire bus_driver ∷ [])
    else (let found = is_valid os.i2c_get_adapter in
        let log = acquire bus_driver ∷ [] in
        let log1 = if found then acquire bus_adapter ∷ log else log in
        let created = is_valid os.i2c_new_client_device in
        let log2 =
          if created then acquire_on bus_adapter bus_client ∷ log1 else touch bus_adapter ∷ log1 in
        if is_err os.i2c_new_client_device
        then (ptr_err os.i2c_new_client_device, release bus_driver ∷ log2)
        else (pos 0, release bus_adapter ∷ log2))

-- `my_exit` behind a `my_init` that has made the client.
pub my_exit : Log → Log
my_exit log = release bus_driver ∷ release bus_client ∷ log

-- Where i2c_get_adapter returns an adapter or NULL, and i2c_new_client_device a client or an error
-- pointer with a code other than 0: without the adapter the driver works with one that is not there;
-- with it, `my_init` returns 0 and holds the driver and the client, which `my_exit` gives back, or it
-- returns a status other than 0 and holds nothing but, if it was the client that could not be made,
-- the adapter, which nobody gives back.
pub i2c_init_outcome :
    (os : BusOs)
    → (os.i2c_get_adapter ≡ valid) ⊎ (os.i2c_get_adapter ≡ null)
    → (os.i2c_new_client_device ≡ valid) ⊎ ((e : ℕ) × (os.i2c_new_client_device ≡ err_ptr (suc e)))
    → let (status, log) = my_init os in
      if nonzero os.i2c_add_driver
      then (nonzero status ≡ true) × (ledger log ≡ some [])
      else if is_null os.i2c_get_adapter
      then ledger log ≡ none
      else if is_valid os.i2c_new_client_device
      then (status ≡ pos 0)
        × (ledger log ≡ some (bus_client ∷ bus_driver ∷ []))
        × (ledger (my_exit log) ≡ some [])
      else (nonzero status ≡ true) × (ledger log ≡ some (bus_adapter ∷ []))
unfolding my_init my_exit ledger
i2c_init_outcome os a c = ground (arith, a, c)
