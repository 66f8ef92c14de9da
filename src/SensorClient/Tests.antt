-- ===== src/SensorClient/Tests.antt =====
-- Runs of test_bmp180.c.
use linux_driver_development.SensorClient.EndToEnd.{prints_exact}
use linux_driver_development.Bmp180.Calibration.{InRange, encode_calib}
use linux_driver_development.Bmp180.Temperature.{Fits, exact_b5}
use linux_driver_development.Bmp180.Pressure.{
  Measurable, exact_b4, exact_b7, exact_pres, first_pres,
}
use linux_driver_development.Numerals.HexScan.{scan_hex, to_unsigned}
use linux_driver_development.SensorClient.Arguments.{main_argv, parse_address, usage_fails}
use linux_driver_development.Bmp180.{
  I2c, bmp_calib_reg, bmp_read_calib, bmp_read_raw_pres, bmp_read_raw_temp, ok, raw_pres,
}
use linux_driver_development.Bmp180.Compensate.{bmp_compensate, temp_of}
use linux_driver_development.Base.{
  List, Option, [], arith, codes, if◌then◌else◌, negsuc, none, pos, quot, refl, sar, shl, some, ℕ,
  ◌*ℤ◌, ◌+ℤ◌, ◌-ℤ◌, ◌-◌, ◌==◌, ◌^◌, ◌∷◌, ◌≡◌, ◌≢◌,
}
use linux_driver_development.SensorClient.{address_dir, by_path, gives_up, main, unreadable}
use linux_driver_development.SensorClient.Paths.{kernel_dir}
use linux_driver_development.SensorClient.Session.{expected, main-eq_expected_sensor}
use linux_driver_development.SensorClient.Sysfs.{file_of, sysfs}
use linux_driver_development.Numerals.{decimal, hex, padded_hex, print_digits, print_int}
use linux_driver_development.Bmp180.Show.{
  BmpClient, divides_by_zero, measure, pressure_input_show, printed, temp_input_show,
}

abbrev sensor : List ℕ
sensor = codes "/sys/bus/i2c/devices/1-0077"

-- The kernel's name for the sensor's directory, and the program's.
names :
    (kernel_dir (pos 1) 0x77 ≡ sensor)
    × (address_dir (pos 1) 0x77 ≡ codes "/sys/bus/i2c/devices/1-077")
unfolding kernel_dir address_dir print_int decimal padded_hex hex print_digits
names = (refl, refl)

-- The coefficients of the sensor's data sheet, and a bus that answers every measurement with the same
-- three bytes.
abbrev client : BmpClient
client = record {
  calib = record {
    ac1 = pos 408;
    ac2 = negsuc 71;
    ac3 = negsuc 14382;
    ac4 = 32741;
    ac5 = 32757;
    ac6 = 23153;
    b1 = pos 6190;
    b2 = pos 4;
    mb = negsuc 32767;
    mc = negsuc 8710;
    md = pos 2868;
  };
  oversample = 0;
}

abbrev bus : I2c
bus = record {
  read_block = λ reg len. (pos len, 0x6c ∷ 0xfa ∷ 0x40 ∷ []);
  write_byte = λ reg b. pos 0;
}

temp_printed : temp_input_show bus (some client) ≡ printed (pos 150)
unfolding temp_input_show measure bmp_read_raw_temp bmp_read_raw_pres bmp_compensate
temp_printed = refl

pressure_printed : pressure_input_show bus (some client) ≡ printed (pos 82080)
unfolding pressure_input_show measure bmp_read_raw_temp bmp_read_raw_pres bmp_compensate raw_pres
pressure_printed = refl

temp_no_zero : temp_input_show bus (some client) ≢ divides_by_zero
temp_no_zero e = ground (arith, e, temp_printed)

pressure_no_zero : pressure_input_show bus (some client) ≢ divides_by_zero
pressure_no_zero e = ground (arith, e, pressure_printed)

main-eq_expected_sensor_example :
    let t = temp_input_show bus (some client) in
    let p = pressure_input_show bus (some client) in
    main (sysfs sensor (file_of t) (file_of p)) (by_path sensor) ≡ expected sensor t p
main-eq_expected_sensor_example =
    main-eq_expected_sensor sensor bus (some client) (omega arith) temp_no_zero pressure_no_zero

usage_fails_example :
    main_argv
      (sysfs (kernel_dir (pos 1) 0x77) unreadable unreadable)
      (codes "1" ∷ codes "0x77" ∷ [])
    ≡ gives_up 3
unfolding print_int decimal hex print_digits
usage_fails_example = usage_fails (pos 1) 0x77 unreadable unreadable (omega arith) (omega arith)

-- A second x, a blank behind the prefix, and a text that is no number.
address_texts :
    (parse_address (codes "0x0X77") ≡ some 0x77)
    × (parse_address (codes "0x 77") ≡ some 0x77)
    × (parse_address (codes "-1") ≡ some (2 ^ 32 - 1))
    × (parse_address (codes "sensor") ≡ none)
unfolding parse_address to_unsigned scan_hex
address_texts = (refl, refl, refl, refl)

-- A bus that answers as the data sheet's example: the coefficients, two bytes of temperature, and three of
-- pressure.
abbrev sheet_bus : I2c
sheet_bus = record {
  read_block = λ reg len.
      if reg == bmp_calib_reg
      then (pos len, encode_calib client.calib)
      else if len == 2
      then (pos 2, 0x6c ∷ 0xfa ∷ [])
      else (pos 3, 0x5d ∷ 0x23 ∷ 0 ∷ []);
  write_byte = λ reg b. pos 0;
}

sheet_values :
    ((bmp_read_raw_temp sheet_bus).0 ≡ ok 27898) × ((bmp_read_raw_pres sheet_bus 0).0 ≡ ok 23843)
unfolding bmp_read_raw_temp bmp_read_raw_pres raw_pres
sheet_values = (refl, refl)

sheet-InRange : InRange client.calib
sheet-InRange = omega arith

sheet-Fits : Fits client.calib (pos 27898)
unfolding ◌-ℤ◌
sheet-Fits = omega arith

sheet-Measurable : Measurable client.calib 0 23843 (pos 2400)
unfolding exact_b4 exact_b7 first_pres ◌-ℤ◌ sar ◌+ℤ◌ shl
sheet-Measurable = record {
  oss_small = omega arith;
  up_small = omega arith;
  b6_small = omega arith;
  above_b3 = refl;
  b7_fits = omega arith;
  pres_small = omega arith;
}

sheet_b5 : exact_b5 client.calib (pos 27898) ≡ some (pos 2400)
unfolding exact_b5 sar ◌-ℤ◌ ◌+ℤ◌ ◌*ℤ◌ shl quot
sheet_b5 = refl

sheet_pressure : exact_pres client.calib 0 23843 (pos 2400) ≡ some (pos 69964)
unfolding exact_pres ◌-ℤ◌ sar ◌+ℤ◌ ◌*ℤ◌ shl
sheet_pressure = refl

prints_exact_example :
    let shown : Option BmpClient = some client in
    (bmp_read_calib sheet_bus ≡ ok client.calib)
    × (main
          (sysfs sensor
            (file_of (temp_input_show sheet_bus shown))
            (file_of (pressure_input_show sheet_bus shown)))
          (by_path sensor)
        ≡ record { output = some (sensor, temp_of (pos 2400), pos 69964); status = 0 })
prints_exact_example =
    prints_exact sensor sheet_bus client.calib 0 27898 23843 (omega arith) refl sheet-InRange
      sheet_values.0 sheet_values.1 sheet-Fits sheet_b5 sheet-Measurable sheet_pressure
