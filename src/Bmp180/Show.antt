-- ===== src/Bmp180/Show.antt =====
-- `temp_input_show` and `pressure_input_show` of
-- 15_bmp180_i2c_sensor/sensor_read/bmp180_i2c_driver.c.
use linux_driver_development.Base.{Option, arith, neg, none, pos, some, ℕ, ℤ, ◌↔◌, ◌≡◌}
use linux_driver_development.Kernel.{enodev}
use linux_driver_development.Bmp180.{BmpCalib, I2c, bmp_read_raw_pres, bmp_read_raw_temp, err, ok}
use linux_driver_development.Bmp180.Compensate.{bmp_compensate, pres_of, temp_b5, temp_of}

-- `struct bmp_client`, without the pointer to the bus's client.
pub record BmpClient : Type 0 where
  pub calib : BmpCalib
  pub oversample : ℕ

-- What a show function does: it prints a number with "%d\n", or returns an error; or it divides by
-- zero.
pub data Shown : Type 0 where
  printed : ℤ → Shown
  failed : ℤ → Shown
  divides_by_zero : Shown

-- What both functions do: the two measurements, and the compensation. `pick` takes the value that is
-- printed.
unfoldable pub measure : (ℤ × ℤ → ℤ) → I2c → Option BmpClient → Shown
measure pick bus none = failed (neg (pos enodev))
measure pick bus (some bc) = elim (bmp_read_raw_temp bus).0 [
  | err e ↦ failed e
  | ok ut ↦ elim (bmp_read_raw_pres bus bc.oversample).0 [
    | err e ↦ failed e
    | ok up ↦ elim (bmp_compensate bc.calib bc.oversample (pos ut) (pos up)) [
      | none ↦ divides_by_zero
      | some both ↦ printed (pick both)
    ]
  ]
]

unfoldable pub temp_input_show : I2c → Option BmpClient → Shown
unfolding measure
temp_input_show bus client = measure (λ both. both.0) bus client

unfoldable pub pressure_input_show : I2c → Option BmpClient → Shown
unfolding measure
pressure_input_show bus client = measure (λ both. both.1) bus client

-- If all three bus operations of the temperature succeed and the compensation divides by no zero,
-- the temperature that is printed is that of the raw temperature alone: it is the same for every
-- answer of the bus to the pressure measurement, as long as that succeeds.
pub temp_input_show_temperature :
    (bus : I2c) (bc : BmpClient) (ut up : ℕ) (b5 p : ℤ)
    → (bmp_read_raw_temp bus).0 ≡ ok ut
    → (bmp_read_raw_pres bus bc.oversample).0 ≡ ok up
    → temp_b5 bc.calib (pos ut) ≡ some b5
    → pres_of bc.calib bc.oversample (pos up) b5 ≡ some p
    → (temp_input_show bus (some bc) ≡ printed (temp_of b5))
      × (pressure_input_show bus (some bc) ≡ printed p)
unfolding temp_input_show pressure_input_show bmp_compensate
temp_input_show_temperature bus bc ut up b5 p t q e f = ground arith

-- Both files fail alike: one returns an error exactly when the other does, and the same.
pub show_fail_alike :
    (bus : I2c) (client : Option BmpClient) (e : ℤ)
    → (temp_input_show bus client ≡ failed e) ↔ (pressure_input_show bus client ≡ failed e)
unfolding temp_input_show pressure_input_show
show_fail_alike bus none e = (λ h. h, λ h. h)
show_fail_alike bus (some bc) e = (λ h. ground arith, λ h. ground arith)
