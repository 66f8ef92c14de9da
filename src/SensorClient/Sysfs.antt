-- ===== src/SensorClient/Sysfs.antt =====
-- The two files of the sensor's driver, as test_bmp180.c finds them in sysfs.
use linux_driver_development.Kernel.{same, short}
use linux_driver_development.Numerals.RoundTrip.{strtoll-print_int}
use linux_driver_development.Numerals.Width.{length-print_digits}
use linux_driver_development.Base.{
  Bool, Bool-cases, List, [], ap, arith, false, if◌then◌else◌, inl, inr, length, magnitude, negsuc,
  pos, refl, some, suc, true, zero, ℕ, ℤ, ◌%◌, ◌&&◌, ◌++◌, ◌/◌, ◌<◌, ◌==◌, ◌^◌, ◌∷◌, ◌≡◌, ◌≢◌, ◌≤◌,
}
use linux_driver_development.SensorClient.{
  File, buf_max, fgets, holds_bytes, line, missing, parse_line, path_of, pressure_input,
  read_number, temp_input, unreadable,
}
use linux_driver_development.Numerals.{decimal, digit_char, print_digits, print_int}
use linux_driver_development.Bmp180.Show.{Shown, divides_by_zero, failed, printed}

abbrev pub same_bytes : List ℕ → List ℕ → Bool
same_bytes [] [] = true
same_bytes [] (y ∷ ys) = false
same_bytes (x ∷ xs) [] = false
same_bytes (x ∷ xs) (y ∷ ys) = let rest = same_bytes xs ys in x == y && rest

-- What a read of a file finds that one of the driver's show functions makes: its "%d\n", or nothing
-- but an error. A division by zero does not come back at all.
unfoldable pub file_of : Shown → File
file_of (printed z) = holds_bytes (print_int z ++ (10 ∷ []))
file_of (failed e) = unreadable
file_of divides_by_zero = unreadable

-- The files under a directory of the sensor, and no other.
unfoldable pub sysfs : List ℕ → File → File → List ℕ → File
sysfs dir temp pressure path =
    if same_bytes path (path_of dir temp_input)
    then temp
    else if same_bytes path (path_of dir pressure_input)
    then pressure
    else missing

pub same_bytes_refl : (xs : List ℕ) → same_bytes xs xs ≡ true
same_bytes_refl [] = refl
same_bytes_refl (x ∷ xs) = ground (arith, same_bytes_refl xs)

pub same_bytes-eq : (xs ys : List ℕ) → same_bytes xs ys ≡ true → xs ≡ ys
same_bytes-eq [] [] h = refl
same_bytes-eq [] (y ∷ ys) h = absurd (ground (arith, h))
same_bytes-eq (x ∷ xs) [] h = absurd (ground (arith, h))
same_bytes-eq (x ∷ xs) (y ∷ ys) h = ground (arith, h, same_bytes-eq xs ys)

append-cancel : (dir xs ys : List ℕ) → same_bytes (dir ++ xs) (dir ++ ys) ≡ same_bytes xs ys
append-cancel [] xs ys = refl
append-cancel (d ∷ dir) xs ys = ground (arith, append-cancel dir xs ys)

pub sysfs-temp :
    (dir : List ℕ) (temp pressure : File) → sysfs dir temp pressure (path_of dir temp_input) ≡ temp
unfolding sysfs
sysfs-temp dir temp pressure = rw (same_bytes_refl (path_of dir temp_input)) refl

pub sysfs-pressure :
    (dir : List ℕ) (temp pressure : File)
    → sysfs dir temp pressure (path_of dir pressure_input) ≡ pressure
unfolding sysfs
sysfs-pressure dir temp pressure =
    rw
      (
        append-cancel dir (47 ∷ pressure_input) (47 ∷ temp_input),
        same_bytes_refl (path_of dir pressure_input),
      )
      refl

same_bytes-different : (xs ys : List ℕ) → xs ≢ ys → same_bytes xs ys ≡ false
same_bytes-different xs ys n = elim (Bool-cases (same_bytes xs ys)) [
  | inl same ↦ absurd (n (same_bytes-eq xs ys same))
  | inr other ↦ other
]

-- Nothing is found under a path that is neither file's.
pub sysfs-missing :
    (dir path : List ℕ) (temp pressure : File)
    → path ≢ path_of dir temp_input
    → path ≢ path_of dir pressure_input
    → sysfs dir temp pressure path ≡ missing
unfolding sysfs
sysfs-missing dir path temp pressure n m =
    rw
      (
        same_bytes-different path (path_of dir temp_input) n,
        same_bytes-different path (path_of dir pressure_input) m,
      )
      refl

-- No line's end stands in the text of a number.
abbrev pub NoLineEnd : List ℕ → Type 0
NoLineEnd [] = Unit
NoLineEnd (c ∷ cs) = (c ≢ 10) × NoLineEnd cs

digit_char-ne : (d : ℕ) → digit_char d ≢ 10
digit_char-ne d e = ground (arith, e)

print_digits-NoLineEnd :
    (fuel n : ℕ) (out : List ℕ) → NoLineEnd out → NoLineEnd (print_digits fuel 10 n out)
unfolding print_digits
print_digits-NoLineEnd zero n out h = h
print_digits-NoLineEnd (suc fuel) n out h =
    let more = print_digits-NoLineEnd fuel (n / 10) (digit_char (n % 10) ∷ out) in
    ground (arith, h, digit_char-ne n, more (digit_char-ne (n % 10), h))

-- A line's text with its end fits a buffer that has room for both.
pub line-text :
    (room : ℕ) (text rest : List ℕ)
    → NoLineEnd text
    → length text < room
    → line room (text ++ (10 ∷ rest)) ≡ text ++ (10 ∷ [])
unfolding line
line-text zero text rest n h = absurd (omega arith)
line-text (suc room) [] rest n h = refl
line-text (suc room) (c ∷ cs) rest n h = ground (arith, n, line-text room cs rest n.1)

-- The text of an int has no line's end, and fits the program's buffer.
pub print_int-fits :
    (z : ℤ) → magnitude z ≤ 2 ^ 31 → NoLineEnd (print_int z) × (length (print_int z) < 127)
unfolding print_int decimal
print_int-fits (pos n) h = (
  print_digits-NoLineEnd (suc n) n [] tt,
  omega (arith, length-print_digits 10 (omega arith) (suc n) 9 n [] (omega arith)),
)
print_int-fits (negsuc n) h =
    let m = suc n in
    (
      (omega arith, print_digits-NoLineEnd (suc m) m [] tt),
      omega (arith, length-print_digits 10 (omega arith) (suc m) 9 m [] (omega arith)),
    )

fgets-text :
    (text : List ℕ)
    → NoLineEnd text
    → length text < 127
    → fgets buf_max (holds_bytes (text ++ (10 ∷ []))) ≡ some (text ++ (10 ∷ []))
unfolding fgets
fgets-text [] n h = refl
fgets-text (c ∷ cs) n h = ap some (line-text 127 (c ∷ cs) [] n h)

-- The file of a show function that prints an int is read as that int.
pub read_number-printed :
    (z : ℤ) → magnitude z ≤ 2 ^ 31 → read_number (file_of (printed z)) ≡ some z
unfolding read_number file_of parse_line
read_number-printed z h =
    let (no_line_end, short) = print_int-fits z h in
    let found = fgets-text (print_int z) no_line_end short in
    let parsed = strtoll-print_int z (omega arith) in ground (arith, found, parsed)
