-- ===== src/SensorClient/Paths.antt =====
-- The directory that test_bmp180.c makes of a bus and an address.
use linux_driver_development.Base.{
  List, ap, arith, length, length-append, magnitude, ℕ, ℤ, ◌++◌, ◌+◌, ◌<◌, ◌^◌, ◌∷◌, ◌≡◌, ◌≤◌,
}
use linux_driver_development.SensorClient.{
  File, address_dir, by_address, device_dir_of, devices, fgets, gives_up, main, missing,
  path_maxlen, path_of, pressure_input, read_both, read_number, read_sysfs_int, temp_input,
}
use linux_driver_development.Numerals.{padded_hex, print_int}
use linux_driver_development.Numerals.Width.{length-padded_hex}
use linux_driver_development.SensorClient.Sysfs.{print_int-fits, sysfs, sysfs-missing}

-- The directory of a device on an I2C bus: the kernel names it with "%d-%04x", as the program's own
-- usage text does.
unfoldable pub kernel_dir : ℤ → ℕ → List ℕ
kernel_dir bus addr = devices ++ (print_int bus ++ (45 ∷ padded_hex 4 addr))

length-dirs :
    (bus : ℤ) (addr : ℕ)
    → addr < 16 ^ 3
    → length (kernel_dir bus addr) ≡ length (address_dir bus addr) + 1
unfolding kernel_dir address_dir
length-dirs bus addr h =
    let short = 45 ∷ padded_hex 3 addr in
    let long = 45 ∷ padded_hex 4 addr in
    omega (
      arith,
      length-padded_hex addr h,
      length-append devices (print_int bus ++ short),
      length-append devices (print_int bus ++ long),
      length-append (print_int bus) short,
      length-append (print_int bus) long,
    )

-- The program's path of the temperature is the path of neither file.
address_dir-missing :
    (bus : ℤ) (addr : ℕ) (temp pressure : File)
    → addr < 16 ^ 3
    → sysfs (kernel_dir bus addr) temp pressure (path_of (address_dir bus addr) temp_input)
      ≡ missing
address_dir-missing bus addr temp pressure h =
    let ours = length-append (address_dir bus addr) (47 ∷ temp_input) in
    let temps = length-append (kernel_dir bus addr) (47 ∷ temp_input) in
    let pressures = length-append (kernel_dir bus addr) (47 ∷ pressure_input) in
    let longer = length-dirs bus addr h in
    sysfs-missing (kernel_dir bus addr) (path_of (address_dir bus addr) temp_input) temp pressure
      (λ e. absurd (omega (arith, ap length e, ours, temps, longer)))
      (λ e. absurd (omega (arith, ap length e, ours, pressures, longer)))

-- A bus that is an int and an address below 16 ^ 3 fit the program's buffer.
address_dir-fits :
    (bus : ℤ) (addr : ℕ)
    → magnitude bus ≤ 2 ^ 31
    → addr < 16 ^ 3
    → length (address_dir bus addr) < path_maxlen
unfolding address_dir
address_dir-fits bus addr b h = omega (
  arith,
  length-append devices (print_int bus ++ (45 ∷ padded_hex 3 addr)),
  length-append (print_int bus) (45 ∷ padded_hex 3 addr),
  print_int-fits bus b,
  length-padded_hex addr h,
)

-- Called with a bus and an address below 16 ^ 3, which every address of seven bits is, the program
-- never finds the sensor: it returns 3 whatever the sensor's files hold, as it looks for a directory
-- whose name has a digit fewer than the kernel's.
pub by_address_fails :
    (bus : ℤ) (addr : ℕ) (temp pressure : File)
    → magnitude bus ≤ 2 ^ 31
    → addr < 16 ^ 3
    → main (sysfs (kernel_dir bus addr) temp pressure) (by_address bus addr) ≡ gives_up 3
unfolding main device_dir_of read_both read_sysfs_int read_number fgets
by_address_fails bus addr temp pressure b h =
    let none_there = address_dir-missing bus addr temp pressure h in
    let fits = address_dir-fits bus addr b h in ground (arith, none_there, fits)
