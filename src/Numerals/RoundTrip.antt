-- ===== src/Numerals/RoundTrip.antt =====
-- strtoll reads back what %d has printed.
use linux_driver_development.Base.{
  List, [], arith, false, inl, magnitude, negsuc, pos, refl, suc, true, zero, ℕ, ℤ, ◌%◌, ◌++◌, ◌/◌,
  ◌<◌, ◌^◌, ◌∷◌, ◌≡◌, ◌⊎◌,
}
use linux_driver_development.Numerals.{
  clamp, decimal, digit_char, print_digits, print_int, scan, sign, skip_spaces, starts_with_digit,
  strtoll,
}

scan-print :
    (fuel n : ℕ) (out : List ℕ) → n < fuel → scan (print_digits fuel 10 n out) 0 ≡ scan out n
unfolding scan print_digits
scan-print zero n out h = absurd (omega arith)
scan-print (suc fuel) n out h =
    let d = digit_char (n % 10) in ground (arith, scan-print fuel (n / 10) (d ∷ out))

print-starts :
    (fuel n : ℕ) (out : List ℕ)
    → (0 < fuel) ⊎ (starts_with_digit out ≡ true)
    → starts_with_digit (print_digits fuel 10 n out) ≡ true
unfolding print_digits
print-starts zero n out h = ground (arith, h)
print-starts (suc fuel) n out h =
    let d = digit_char (n % 10) in ground (arith, print-starts fuel (n / 10) (d ∷ out))

-- A text that starts with a digit has neither spaces nor a sign before it.
strtoll-digits :
    (bytes : List ℕ) → starts_with_digit bytes ≡ true → strtoll bytes ≡ clamp false (scan bytes 0)
unfolding strtoll skip_spaces sign
strtoll-digits [] h = absurd (ground (arith, h))
strtoll-digits (c ∷ cs) h = ground (arith, h)

strtoll-minus :
    (bytes : List ℕ)
    → starts_with_digit bytes ≡ true
    → strtoll (45 ∷ bytes) ≡ clamp true (scan bytes 0)
unfolding strtoll skip_spaces sign
strtoll-minus bytes h = ground (arith, h)

print-append :
    (fuel n : ℕ) (out rest : List ℕ)
    → print_digits fuel 10 n out ++ rest ≡ print_digits fuel 10 n (out ++ rest)
unfolding print_digits
print-append zero n out rest = refl
print-append (suc fuel) n out rest =
    ground (arith, print-append fuel (n / 10) (digit_char (n % 10) ∷ out) rest)

-- A line with a number: it starts with a digit, and its digits spell the number.
decimal-line :
    (n : ℕ)
    → (starts_with_digit (decimal n ++ (10 ∷ [])) ≡ true) × (scan (decimal n ++ (10 ∷ [])) 0 ≡ n)
unfolding decimal scan
decimal-line n = rw (print-append (suc n) n [] (10 ∷ [])) (
  print-starts (suc n) n (10 ∷ []) (inl (omega arith)),
  scan-print (suc n) n (10 ∷ []) (omega arith),
)

-- Every number of the range of `long long`, printed with %d and a line's end behind it, is read
-- back by strtoll.
pub strtoll-print_int :
    (z : ℤ)
    → magnitude z < 2 ^ 63
    → strtoll (print_int z ++ (10 ∷ [])) ≡ record { value = z; moved = true; out_of_range = false }
unfolding print_int clamp
strtoll-print_int (pos n) h =
    let (digit, value) = decimal-line n in
    ground (arith, strtoll-digits (decimal n ++ (10 ∷ [])) digit, value)
strtoll-print_int (negsuc n) h =
    let (digit, value) = decimal-line (suc n) in
    ground (arith, strtoll-minus (decimal (suc n) ++ (10 ∷ [])) digit, value)

decimal-alone : (n : ℕ) → (starts_with_digit (decimal n) ≡ true) × (scan (decimal n) 0 ≡ n)
unfolding decimal scan
decimal-alone n =
    (print-starts (suc n) n [] (inl (omega arith)), scan-print (suc n) n [] (omega arith))

-- The same without the line's end.
pub strtoll-print_int_alone :
    (z : ℤ)
    → magnitude z < 2 ^ 63
    → strtoll (print_int z) ≡ record { value = z; moved = true; out_of_range = false }
unfolding print_int clamp
strtoll-print_int_alone (pos n) h =
    let (digit, value) = decimal-alone n in ground (arith, strtoll-digits (decimal n) digit, value)
strtoll-print_int_alone (negsuc n) h =
    let (digit, value) = decimal-alone (suc n) in
    ground (arith, strtoll-minus (decimal (suc n)) digit, value)
