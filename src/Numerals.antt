-- ===== src/Numerals.antt =====
-- The text of numbers as C's library writes and reads it, as far as the sensor's driver and program
-- in 15_bmp180_i2c_sensor/sensor_read use it: the formats %d, %x and %03x of printf, and strtoll.
pub mod Width
pub mod RoundTrip
pub mod HexScan
mod Tests
use linux_driver_development.Base.{
  Bool, List, [], false, if◌then◌else◌, leb, length, ltb, neg, negsuc, pos, replicate, suc, true,
  zero, ℕ, ℤ, ◌%◌, ◌&&◌, ◌*◌, ◌++◌, ◌+◌, ◌-◌, ◌/◌, ◌==◌, ◌^◌, ◌||◌, ◌∷◌,
}

-- The character of a digit.
abbrev pub digit_char : ℕ → ℕ
digit_char d = if ltb d 10 then 48 + d else 87 + d

-- The digits of n in a base, before `out`. One unit of fuel makes one digit, so n + 1 is enough.
unfoldable pub print_digits : ℕ → ℕ → ℕ → List ℕ → List ℕ
print_digits zero base n out = out
print_digits (suc fuel) base n out =
    let more = print_digits fuel base (n / base) (digit_char (n % base) ∷ out) in
    if ltb n base then digit_char n ∷ out else more

-- %d of a number that is not negative.
unfoldable pub decimal : ℕ → List ℕ
unfolding print_digits
decimal n = print_digits (suc n) 10 n []

-- %x
unfoldable pub hex : ℕ → List ℕ
unfolding print_digits
hex n = print_digits (suc n) 16 n []

-- %0kx
unfoldable pub padded_hex : ℕ → ℕ → List ℕ
unfolding hex
padded_hex k n = replicate (k - length (hex n)) 48 ++ hex n

-- %d
unfoldable pub print_int : ℤ → List ℕ
unfolding decimal
print_int (pos n) = decimal n
print_int (negsuc n) = 45 ∷ decimal (suc n)

abbrev pub is_digit : ℕ → Bool
is_digit c = leb 48 c && leb c 57

abbrev pub is_space : ℕ → Bool
is_space c = c == 32 || (leb 9 c && leb c 13)

unfoldable pub skip_spaces : List ℕ → List ℕ
skip_spaces [] = []
skip_spaces (c ∷ cs) = if is_space c then skip_spaces cs else c ∷ cs

-- Whether there is a minus sign, and what stands behind the sign.
unfoldable pub sign : List ℕ → Bool × List ℕ
sign [] = (false, [])
sign (c ∷ cs) = if c == 45 then (true, cs) else if c == 43 then (false, cs) else (false, c ∷ cs)

-- The number that the digits at the start spell, behind `n`.
unfoldable pub scan : List ℕ → ℕ → ℕ
scan [] n = n
scan (c ∷ cs) n = if is_digit c then scan cs (n * 10 + (c - 48)) else n

abbrev pub starts_with_digit : List ℕ → Bool
starts_with_digit [] = false
starts_with_digit (c ∷ cs) = is_digit c

-- What strtoll returns for base 10, whether `endp` has moved, and whether errno is ERANGE.
pub record Conversion : Type 0 where
  pub value : ℤ
  pub moved : Bool
  pub out_of_range : Bool

-- The number with its sign, cut to the range of `long long`.
unfoldable pub clamp : Bool → ℕ → Conversion
clamp true n =
    if leb n (2 ^ 63)
    then record { value = neg (pos n); moved = true; out_of_range = false }
    else record { value = neg (pos (2 ^ 63)); moved = true; out_of_range = true }
clamp false n =
    if ltb n (2 ^ 63)
    then record { value = pos n; moved = true; out_of_range = false }
    else record { value = pos (2 ^ 63 - 1); moved = true; out_of_range = true }

unfoldable pub strtoll : List ℕ → Conversion
unfolding skip_spaces sign scan clamp
strtoll bytes =
    let (negative, rest) = sign (skip_spaces bytes) in
    if starts_with_digit rest
    then clamp negative (scan rest 0)
    else record { value = pos 0; moved = false; out_of_range = false }
