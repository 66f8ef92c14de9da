-- ===== src/SensorClient.antt =====
-- 15_bmp180_i2c_sensor/sensor_read/test_bmp180.c: the program that reads the sensor's two files in
-- sysfs, and prints what they say.
pub mod Sysfs
pub mod Session
pub mod Paths
pub mod Arguments
pub mod EndToEnd
mod Tests
use linux_driver_development.Base.{
  List, Option, [], codes, if◌then◌else◌, leb, length, none, not, some, suc, take, zero, ℕ, ℤ, ◌++◌,
  ◌-◌, ◌==◌, ◌||◌, ◌∷◌,
}
use linux_driver_development.Numerals.{padded_hex, print_int, strtoll}

-- `PATH_MAXLEN` and `BUF_MAX`
abbrev pub path_maxlen : ℕ
path_maxlen = 256

abbrev pub buf_max : ℕ
buf_max = 128

-- What fopen finds under a path: no file; a file whose read fails; or a file with these bytes.
pub data File : Type 0 where
  missing unreadable : File
  holds_bytes : List ℕ → File

-- `fgets(buf, size, f)`: the bytes up to the first line's end, that included, and at most size - 1;
-- `none` if there are none.
unfoldable pub line : ℕ → List ℕ → List ℕ
line zero bytes = []
line (suc room) [] = []
line (suc room) (c ∷ cs) = let rest = line room cs in if c == 10 then c ∷ [] else c ∷ rest

unfoldable pub fgets : ℕ → File → Option (List ℕ)
unfolding line
fgets size missing = none
fgets size unreadable = none
fgets size (holds_bytes []) = none
fgets size (holds_bytes (c ∷ cs)) = some (line (size - 1) (c ∷ cs))

-- The text of `snprintf(path, sizeof(path), "%s/%s", device_dir, filename)`.
abbrev pub path_of : List ℕ → List ℕ → List ℕ
path_of device_dir filename = device_dir ++ (47 ∷ filename)

-- What `read_sysfs_int` does with the buffer: the number, or `none` for -1.
unfoldable pub parse_line : List ℕ → Option ℤ
parse_line buf = let c = strtoll buf in if c.out_of_range || not c.moved then none else some c.value

-- The part of `read_sysfs_int` behind fopen.
unfoldable pub read_number : File → Option ℤ
unfolding fgets parse_line
read_number f = elim (fgets buf_max f) [ none ↦ none | some buf ↦ parse_line buf ]

-- `read_sysfs_int`: `none` for -1.
unfoldable pub read_sysfs_int : (List ℕ → File) → List ℕ → List ℕ → Option ℤ
unfolding read_number
read_sysfs_int fopen device_dir filename =
    let path = path_of device_dir filename in
    if leb path_maxlen (length path) then none else read_number (fopen path)

-- The program's arguments, with the numbers that atoi and sscanf make of the bus and of the address:
-- one path; a bus and an address; a bus and something that is no address; or another number of
-- arguments.
pub data Args : Type 0 where
  by_path : List ℕ → Args
  by_address : ℤ → ℕ → Args
  bad_address : Args
  usage : Args

-- `/sys/bus/i2c/devices/`
abbrev pub devices : List ℕ
devices = codes "/sys/bus/i2c/devices/"

-- The text of "/sys/bus/i2c/devices/%d-%03x".
unfoldable pub address_dir : ℤ → ℕ → List ℕ
address_dir bus addr = devices ++ (print_int bus ++ (45 ∷ padded_hex 3 addr))

-- `device_dir`, or `none` where `main` returns 2. strncpy and the zero byte behind it keep 255 bytes.
unfoldable pub device_dir_of : Args → Option (List ℕ)
unfolding address_dir
device_dir_of (by_path dir) = some (take (path_maxlen - 1) dir)
device_dir_of (by_address bus addr) =
    if leb path_maxlen (length (address_dir bus addr)) then none else some (address_dir bus addr)
device_dir_of bad_address = none
device_dir_of usage = none

abbrev pub temp_input : List ℕ
temp_input = codes "temp_input"

abbrev pub pressure_input : List ℕ
pressure_input = codes "pressure_input"

-- What `main` prints at its end: the directory, and the raw numbers of the temperature and the
-- pressure; and what it returns.
pub record Outcome : Type 0 where
  pub output : Option (List ℕ × ℤ × ℤ)
  pub status : ℕ

abbrev pub gives_up : ℕ → Outcome
gives_up status = record { output = none; status = status }

-- The two reads in `main`.
unfoldable pub read_both : (List ℕ → File) → List ℕ → Outcome
unfolding read_sysfs_int
read_both fopen dir = elim (read_sysfs_int fopen dir temp_input) [
  | none ↦ gives_up 3
  | some temp10 ↦ elim (read_sysfs_int fopen dir pressure_input) [
    | none ↦ gives_up 4
    | some pressure ↦ record { output = some (dir, temp10, pressure); status = 0 }
  ]
]

unfoldable pub main : (List ℕ → File) → Args → Outcome
unfolding device_dir_of read_both
main fopen args = elim (device_dir_of args) [ none ↦ gives_up 2 | some dir ↦ read_both fopen dir ]
