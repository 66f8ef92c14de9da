-- ===== src/SensorClient/EndToEnd.antt =====
-- From the bytes on the bus to what test_bmp180.c prints.
use linux_driver_development.Base.{List, Option, arith, length, pos, some, ℕ, ℤ, ◌<◌, ◌∙◌, ◌≡◌}
use linux_driver_development.Kernel.{short}
use linux_driver_development.SensorClient.{by_path, main}
use linux_driver_development.Bmp180.{
  BmpCalib, I2c, bmp_calib_reg, bmp_read_calib, bmp_read_raw_pres, bmp_read_raw_temp, ok,
}
use linux_driver_development.Bmp180.Calibration.{InRange, bmp_read_calib-encode_calib, encode_calib}
use linux_driver_development.Bmp180.Compensate.{temp_of}
use linux_driver_development.Bmp180.Show.{BmpClient, pressure_input_show, temp_input_show}
use linux_driver_development.Bmp180.Temperature.{Fits, exact_b5}
use linux_driver_development.Bmp180.Pressure.{Measurable, exact_pres}
use linux_driver_development.Bmp180.Pressure.Exact.{shows_exact}
use linux_driver_development.SensorClient.Session.{expected, main-eq_expected_sensor}
use linux_driver_development.SensorClient.Sysfs.{file_of, sysfs}
use mathlib.Core.Path.{ap₂}

-- Where the sensor's coefficients, written as the data sheet lays them out, are a calibration with
-- values in the ranges of their types, the two measurements are in range, and the directory's name
-- leaves room for the names of the files: the driver reads that calibration, and the program, run on
-- the files of a driver that has it, prints the temperature and the pressure of the formulas over the
-- integers, `exact_b5` and `exact_pres`, and returns 0.
pub prints_exact :
    (dir : List ℕ) (bus : I2c) (c : BmpCalib) (oss ut up : ℕ) {b5 p : ℤ}
    → length dir < 241
    → bus.read_block bmp_calib_reg 22 ≡ (pos 22, encode_calib c)
    → InRange c
    → (bmp_read_raw_temp bus).0 ≡ ok ut
    → (bmp_read_raw_pres bus oss).0 ≡ ok up
    → Fits c (pos ut)
    → exact_b5 c (pos ut) ≡ some b5
    → Measurable c oss up b5
    → exact_pres c oss up b5 ≡ some p
    → let client : Option BmpClient = some (record { calib = c; oversample = oss }) in
      (bmp_read_calib bus ≡ ok c)
      × (main
            (sysfs dir
              (file_of (temp_input_show bus client))
              (file_of (pressure_input_show bus client)))
            (by_path dir)
          ≡ record { output = some (dir, temp_of b5, p); status = 0 })
prints_exact dir bus c oss ut up {b5} {p} short bytes cal t q f e m h =
    let bc : BmpClient = record { calib = c; oversample = oss } in
    let (temp, pressure) = shows_exact bus bc ut up t q cal f e m h in
    let both =
      main-eq_expected_sensor dir bus (some bc) (omega (arith, short))
        (λ z. ground (arith, temp, z)) (λ z. ground (arith, pressure, z)) in
    (
      bmp_read_calib-encode_calib bus c cal bytes,
      both ∙ (ap₂ (expected dir) temp pressure ∙ ground (arith, short)),
    )
