-- ===== src/SensorClient/Arguments.antt =====
-- How test_bmp180.c reads its arguments.
use linux_driver_development.Base.{
  List, Option, [], ap, arith, magnitude, none, some, ℕ, ℤ, ◌<◌, ◌^◌, ◌∙◌, ◌∷◌, ◌≡◌,
}
use linux_driver_development.Kernel.{short}
use linux_driver_development.SensorClient.{
  Args, File, Outcome, bad_address, by_address, by_path, gives_up, main, usage,
}
use linux_driver_development.Numerals.{hex, print_int}
use linux_driver_development.Numerals.HexScan.{
  atoi, atoi-print_int, read-hex, read_hex, read_prefixed,
}
use linux_driver_development.SensorClient.Sysfs.{sysfs}
use linux_driver_development.SensorClient.Paths.{by_address_fails, kernel_dir}

-- `sscanf(argv[2], "0x%x", &addr)`, and where that does not match `sscanf(argv[2], "%x", &addr)`.
unfoldable pub parse_address : List ℕ → Option ℕ
unfolding read_prefixed read_hex
parse_address text = elim (read_prefixed text) [ some addr ↦ some addr | none ↦ read_hex text ]

-- The arguments behind the program's name.
unfoldable pub args_of : List (List ℕ) → Args
unfolding parse_address atoi
args_of (path ∷ []) = by_path path
args_of (bus ∷ address ∷ []) = elim (parse_address address) [
  | none ↦ bad_address
  | some addr ↦ by_address (atoi bus) addr
]
args_of [] = usage
args_of (a ∷ b ∷ c ∷ more) = usage

-- The program on its command line.
pub main_argv : (List ℕ → File) → List (List ℕ) → Outcome
unfolding args_of
main_argv fopen argv = main fopen (args_of argv)

-- An int as the bus and an unsigned int in hexadecimal as the address, with or without 0x, are what the
-- program makes of their texts.
pub args_of-printed :
    (bus : ℤ) (addr : ℕ)
    → magnitude bus < 2 ^ 31
    → addr < 2 ^ 32
    → (args_of (print_int bus ∷ hex addr ∷ []) ≡ by_address bus addr)
      × (args_of (print_int bus ∷ (48 ∷ 120 ∷ hex addr) ∷ []) ≡ by_address bus addr)
unfolding args_of parse_address
args_of-printed bus addr b h =
    let (plain, prefixed, short) = read-hex addr h in
    (
      ground (arith, atoi-print_int bus b, plain, prefixed),
      ground (arith, atoi-print_int bus b, short),
    )

-- Called as its usage text says, with a bus and an address below 16 ^ 3 behind 0x, the program returns 3
-- whatever the sensor's files hold: it looks for a directory whose name has a digit fewer than the
-- kernel's.
pub usage_fails :
    (bus : ℤ) (addr : ℕ) (temp pressure : File)
    → magnitude bus < 2 ^ 31
    → addr < 16 ^ 3
    → main_argv
        (sysfs (kernel_dir bus addr) temp pressure)
        (print_int bus ∷ (48 ∷ 120 ∷ hex addr) ∷ [])
      ≡ gives_up 3
unfolding main_argv
usage_fails bus addr temp pressure b h =
    ap (main (sysfs (kernel_dir bus addr) temp pressure))
      ((args_of-printed bus addr b (omega (arith, h))).1)
    ∙ by_address_fails bus addr temp pressure (omega (arith, b)) h
