-- ===== src/Bmp180/Tests.antt =====
-- Runs of 15_bmp180_i2c_sensor/sensor_read/bmp180_i2c_driver.c at concrete inputs.
use linux_driver_development.Bmp180.Pressure.{
  Measurable, exact_b4, exact_b7, exact_pres, first_pres,
}
use linux_driver_development.Bmp180.Pressure.Exact.{pres_of-eq_exact}
use linux_driver_development.Bmp180.Calibration.{InRange, bmp_read_calib-encode_calib, encode_calib}
use linux_driver_development.Bmp180.Temperature.{Fits}
use linux_driver_development.Base.{
  [], arith, if◌then◌else◌, negsuc, pos, refl, sar, shl, some, ◌*ℤ◌, ◌+ℤ◌, ◌-ℤ◌, ◌==◌, ◌∷◌, ◌≡◌,
}
use linux_driver_development.Bmp180.{BmpCalib, I2c, bmp_calib_reg, bmp_read_calib, ok}
use linux_driver_development.Bmp180.Compensate.{bmp_compensate, pres_of}

-- The example of the sensor's data sheet.
abbrev sample : BmpCalib
sample = record {
  ac1 = pos 408;
  ac2 = negsuc 71;
  ac3 = negsuc 14382;
  ac4 = 32741;
  ac5 = 32757;
  ac6 = 23153;
  b1 = pos 6190;
  b2 = pos 4;
  mb = negsuc 32767;
  mc = negsuc 8710;
  md = pos 2868;
}

data_sheet : bmp_compensate sample 0 (pos 27898) (pos 23843) ≡ some (pos 150, pos 69964)
unfolding bmp_compensate
data_sheet = refl

-- A bus on which every write succeeds, the coefficients are those of the data sheet, and each
-- measurement answers with the same three bytes.
abbrev bus : I2c
bus = record {
  read_block = λ reg len.
      if reg == bmp_calib_reg
      then (pos len, encode_calib sample)
      else (pos len, 0x6c ∷ 0xfa ∷ 0x40 ∷ []);
  write_byte = λ reg b. pos 0;
}

sample-InRange : InRange sample
sample-InRange = omega arith

bmp_read_calib-encode_calib_example : bmp_read_calib bus ≡ ok sample
bmp_read_calib-encode_calib_example = bmp_read_calib-encode_calib bus sample sample-InRange refl

sample-Fits : Fits sample (pos 27898)
unfolding ◌-ℤ◌
sample-Fits = omega arith

sample-Measurable : Measurable sample 0 23843 (pos 2400)
unfolding exact_b4 exact_b7 first_pres ◌-ℤ◌ sar ◌+ℤ◌ shl
sample-Measurable = record {
  oss_small = omega arith;
  up_small = omega arith;
  b6_small = omega arith;
  above_b3 = refl;
  b7_fits = omega arith;
  pres_small = omega arith;
}

pres_of-eq_exact_example :
    pres_of sample 0 (pos 23843) (pos 2400) ≡ exact_pres sample 0 23843 (pos 2400)
pres_of-eq_exact_example =
    pres_of-eq_exact sample 0 23843 (pos 2400) sample-InRange sample-Measurable

-- The pressure of the data sheet's example.
datasheet_pressure : exact_pres sample 0 23843 (pos 2400) ≡ some (pos 69964)
unfolding exact_pres ◌-ℤ◌ sar ◌+ℤ◌ ◌*ℤ◌ shl
datasheet_pressure = refl
