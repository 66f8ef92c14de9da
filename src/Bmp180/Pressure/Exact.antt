-- ===== src/Bmp180/Pressure/Exact.antt =====
-- No overflow in the pressure of 15_bmp180_i2c_sensor/sensor_read/bmp180_i2c_driver.c.
use linux_driver_development.Bmp180.Show.{
  BmpClient, pressure_input_show, printed, temp_input_show, temp_input_show_temperature,
}
use linux_driver_development.Bmp180.Temperature.{Fits, exact_b5, temp_b5-eq_exact}
use linux_driver_development.Base.{
  arith, pos, pos_part, refl, some, ℕ, ℤ, ◌*◌, ◌+ℤ◌, ◌-◌, ◌^◌, ◌∙◌, ◌≡◌,
}
use linux_driver_development.Bmp180.{BmpCalib, I2c, bmp_read_raw_pres, bmp_read_raw_temp, ok}
use linux_driver_development.Bmp180.Compensate.{pres_of, temp_of}
use linux_driver_development.Bmp180.Within.{minus-exact}
use linux_driver_development.Bmp180.Pressure.{
  Measurable, exact_b3, exact_b4, exact_b6, exact_b7, exact_pres, exact_square, exact_x3,
}
use linux_driver_development.Bmp180.Calibration.{InRange}
use linux_driver_development.Bmp180.Pressure.Steps.{
  b3-exact, b4-fits, below_wrap, code_b3, code_correction, code_x3, last-exact, square-within,
  to_u32-difference, to_u32-sum, x3-exact,
}

-- Where the coefficients are 16-bit values and the measurement is in range, no step of the pressure
-- overflows: the result is that of the formula over the integers, `exact_pres`, a division by zero
-- included.
pub pres_of-eq_exact :
    (c : BmpCalib) (oss up : ℕ) (b5 : ℤ)
    → InRange c
    → Measurable c oss up b5
    → pres_of c oss (pos up) b5 ≡ exact_pres c oss up b5
unfolding pres_of exact_pres exact_b4 exact_b7 code_b3 code_x3 exact_square code_correction
pres_of-eq_exact c oss up b5 cal r =
    let b6 = exact_b6 b5 in
    let (b3_same, b3_small) = b3-exact cal b6 r.b6_small oss r.oss_small in
    let (x3_same, x3_small) = x3-exact cal b6 r.b6_small in
    let (sum_same, sum_u32, sum_small) = to_u32-sum (exact_x3 c b6) x3_small in
    let divisor = pos_part (exact_x3 c b6 +ℤ pos 32768) in
    rw
      (
        minus-exact b5 (pos 4000) (2 ^ 14 - 1) r.b6_small (omega arith),
        (square-within b6 r.b6_small).0,
        b3_same,
        x3_same,
        sum_same,
        sum_u32,
        to_u32-difference up (exact_b3 c oss b6) r.up_small b3_small r.above_b3,
        below_wrap (c.ac4 * divisor) (b4-fits cal divisor sum_small),
        below_wrap (exact_b7 c oss up b6) r.b7_fits,
        last-exact (exact_b7 c oss up b6) (exact_b4 c b6) r.pres_small,
      )
      refl

-- Where the bus answers both measurements with a raw temperature and a raw pressure in range, for
-- coefficients of 16 bits, the two files of sysfs show the temperature and the pressure of the
-- formulas over the integers, `exact_b5` and `exact_pres`.
pub shows_exact :
    (bus : I2c) (bc : BmpClient) (ut up : ℕ) {b5 p : ℤ}
    → (bmp_read_raw_temp bus).0 ≡ ok ut
    → (bmp_read_raw_pres bus bc.oversample).0 ≡ ok up
    → InRange bc.calib
    → Fits bc.calib (pos ut)
    → exact_b5 bc.calib (pos ut) ≡ some b5
    → Measurable bc.calib bc.oversample up b5
    → exact_pres bc.calib bc.oversample up b5 ≡ some p
    → (temp_input_show bus (some bc) ≡ printed (temp_of b5))
      × (pressure_input_show bus (some bc) ≡ printed p)
shows_exact bus bc ut up {b5} {p} t q cal f e m h =
    temp_input_show_temperature bus bc ut up b5 p t q (temp_b5-eq_exact bc.calib (pos ut) f ∙ e)
      (pres_of-eq_exact bc.calib bc.oversample up b5 cal m ∙ h)
