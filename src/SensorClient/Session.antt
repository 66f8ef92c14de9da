-- ===== src/SensorClient/Session.antt =====
-- What test_bmp180.c prints of the driver's two files.
use linux_driver_development.Bmp180.{I2c}
use linux_driver_development.Bmp180.Ranges.{PrintsInt, shows-PrintsInt}
use linux_driver_development.Kernel.{take-all}
use linux_driver_development.Base.{
  List, Option, arith, if◌then◌else◌, leb, length, length-append, none, refl, some, ℕ, ℤ, ◌+◌, ◌<◌,
  ◌∷◌, ◌≡◌, ◌≢◌,
}
use linux_driver_development.SensorClient.{
  Outcome, by_path, device_dir_of, fgets, gives_up, main, path_maxlen, path_of, pressure_input,
  read_both, read_number, read_sysfs_int, temp_input,
}
use linux_driver_development.Bmp180.Show.{
  BmpClient, Shown, divides_by_zero, failed, pressure_input_show, printed, temp_input_show,
}
use linux_driver_development.SensorClient.Sysfs.{
  file_of, read_number-printed, sysfs, sysfs-pressure, sysfs-temp,
}

-- What the program does, by the length of the directory's name and the two show functions.
abbrev pub expected : List ℕ → Shown → Shown → Outcome
expected dir (printed t) (printed p) =
    if leb 245 (length dir)
    then gives_up 3
    else if leb 241 (length dir)
    then gives_up 4
    else record { output = some (dir, t, p); status = 0 }
expected dir (printed t) p = if leb 245 (length dir) then gives_up 3 else gives_up 4
expected dir t p = gives_up 3

length-path_of :
    (dir : List ℕ)
    → (length (path_of dir temp_input) ≡ length dir + 11)
      × (length (path_of dir pressure_input) ≡ length dir + 15)
length-path_of dir = (
  omega (arith, length-append dir (47 ∷ temp_input)),
  omega (arith, length-append dir (47 ∷ pressure_input)),
)

read_number-failed : (e : ℤ) → read_number (file_of (failed e)) ≡ none
unfolding read_number fgets file_of
read_number-failed e = refl

module _ (dir : List ℕ) (t p : Shown) where
  temp_read :
      read_sysfs_int (sysfs dir (file_of t) (file_of p)) dir temp_input
      ≡ (if leb 245 (length dir) then none else read_number (file_of t))
  unfolding read_sysfs_int
  temp_read = ground (arith, length-path_of dir, sysfs-temp dir (file_of t) (file_of p))

  pressure_read :
      read_sysfs_int (sysfs dir (file_of t) (file_of p)) dir pressure_input
      ≡ (if leb 241 (length dir) then none else read_number (file_of p))
  unfolding read_sysfs_int
  pressure_read = ground (arith, length-path_of dir, sysfs-pressure dir (file_of t) (file_of p))

read_both-eq_expected :
    (dir : List ℕ) (t p : Shown)
    → PrintsInt t
    → PrintsInt p
    → read_both (sysfs dir (file_of t) (file_of p)) dir ≡ expected dir t p
unfolding read_both
read_both-eq_expected dir (printed t) (printed p) rt rp =
    let temp = temp_read dir (printed t) (printed p) in
    let pressure = pressure_read dir (printed t) (printed p) in
    ground (arith, temp, pressure, read_number-printed t rt, read_number-printed p rp)
read_both-eq_expected dir (printed t) (failed e) rt rp =
    let temp = temp_read dir (printed t) (failed e) in
    let pressure = pressure_read dir (printed t) (failed e) in
    ground (arith, temp, pressure, read_number-printed t rt, read_number-failed e)
read_both-eq_expected dir (failed e) p rt rp =
    ground (arith, temp_read dir (failed e) p, read_number-failed e)
read_both-eq_expected dir divides_by_zero p rt rp = absurd rt
read_both-eq_expected dir (printed t) divides_by_zero rt rp = absurd rp

-- Run on the directory of a sensor that the driver serves, whose name is shorter than the program's
-- buffer, and where the driver divides by no zero: the program prints the numbers that the driver's
-- show functions print, digit for digit, and returns 0, if both print one and the names of the files
-- fit; it returns 3 when the temperature cannot be read or its name is too long, and 4 when that holds
-- for the pressure alone.
pub main-eq_expected_sensor :
    (dir : List ℕ) (bus : I2c) (client : Option BmpClient)
    → length dir < path_maxlen
    → temp_input_show bus client ≢ divides_by_zero
    → pressure_input_show bus client ≢ divides_by_zero
    → let t = temp_input_show bus client in
      let p = pressure_input_show bus client in
      main (sysfs dir (file_of t) (file_of p)) (by_path dir) ≡ expected dir t p
unfolding main device_dir_of
main-eq_expected_sensor dir bus client h n m =
    let t = temp_input_show bus client in
    let p = pressure_input_show bus client in
    let (rt, rp) = shows-PrintsInt bus client n m in
    rw (take-all 255 dir (omega arith)) (read_both-eq_expected dir t p rt rp)
