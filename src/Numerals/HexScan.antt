-- ===== src/Numerals/HexScan.antt =====
-- The conversion %x of sscanf, and atoi.
use linux_driver_development.Numerals.RoundTrip.{strtoll-print_int_alone}
use linux_driver_development.Base.{
  Bool, Bool-cases, List, Option, [], ap, arith, false, if◌then◌else◌, inl, inr, leb, ltb,
  magnitude, none, refl, some, suc, true, wrap, wrap-small, zero, ℕ, ℤ, ◌%◌, ◌&&◌, ◌*◌, ◌+◌, ◌-◌,
  ◌/◌, ◌<◌, ◌==◌, ◌^◌, ◌||◌, ◌∙◌, ◌∷◌, ◌≡◌, ◌⊎◌,
}
use linux_driver_development.Numerals.{
  Conversion, digit_char, hex, is_digit, print_digits, print_int, sign, skip_spaces, strtoll,
}

abbrev pub is_hex_digit : ℕ → Bool
is_hex_digit c = is_digit c || (leb 97 c && leb c 102) || (leb 65 c && leb c 70)

abbrev pub hex_value : ℕ → ℕ
hex_value c = if leb c 57 then c - 48 else if leb 97 c then c - 87 else c - 55

-- The number that the hexadecimal digits at the start spell, behind `n`.
unfoldable pub scan_hex : List ℕ → ℕ → ℕ
scan_hex [] n = n
scan_hex (c ∷ cs) n =
    let rest = scan_hex cs (n * 16 + hex_value c) in if is_hex_digit c then rest else n

abbrev pub starts_with_hex_digit : List ℕ → Bool
starts_with_hex_digit [] = false
starts_with_hex_digit (c ∷ cs) = is_hex_digit c

-- What stands behind 0x or 0X.
unfoldable pub behind_prefix : List ℕ → Option (List ℕ)
behind_prefix [] = none
behind_prefix (a ∷ []) = none
behind_prefix (a ∷ b ∷ cs) = if a == 48 && (b == 120 || b == 88) then some cs else none

-- The number with its sign as an unsigned int: strtoul cuts it to 64 bits, and the assignment to 32.
unfoldable pub to_unsigned : Bool → ℕ → ℕ
to_unsigned negative n =
    if leb (2 ^ 64) n then 2 ^ 32 - 1 else if negative then (2 ^ 64 - n) % 2 ^ 32 else n % 2 ^ 32

-- %x: spaces, a sign, 0x or 0X and digits; all but the digits may be missing. `none` is a text that does
-- not match.
unfoldable pub read_hex : List ℕ → Option ℕ
unfolding skip_spaces sign behind_prefix
read_hex bytes =
    let (negative, rest) = sign (skip_spaces bytes) in
    let digits : List ℕ = elim (behind_prefix rest) [ none ↦ rest | some behind ↦ behind ] in
    if starts_with_hex_digit digits then some (to_unsigned negative (scan_hex digits 0)) else none

-- atoi, where `long` has 64 bits: strtol, cut to an int.
unfoldable pub atoi : List ℕ → ℤ
unfolding strtoll
atoi bytes = wrap (strtoll bytes).value

scan_hex-print :
    (fuel n : ℕ) (out : List ℕ)
    → n < fuel
    → scan_hex (print_digits fuel 16 n out) 0 ≡ scan_hex out n
unfolding scan_hex print_digits
scan_hex-print zero n out h = absurd (omega arith)
scan_hex-print (suc fuel) n out h =
    let d = digit_char (n % 16) in ground (arith, scan_hex-print fuel (n / 16) (d ∷ out))

abbrev AllHex : List ℕ → Type 0
AllHex [] = Unit
AllHex (c ∷ cs) = (is_hex_digit c ≡ true) × AllHex cs

digit_char-hex : (n : ℕ) → n < 16 → is_hex_digit (digit_char n) ≡ true
digit_char-hex n h = ground (arith, h)

print-AllHex : (fuel n : ℕ) (out : List ℕ) → AllHex out → AllHex (print_digits fuel 16 n out)
unfolding print_digits
print-AllHex zero n out h = h
print-AllHex (suc fuel) n out h =
    let more =
      print-AllHex fuel (n / 16) (digit_char (n % 16) ∷ out)
        (digit_char-hex (n % 16) (omega arith), h) in
    elim (Bool-cases (ltb n 16)) [
      | inl small ↦ rw small (digit_char-hex n (ground (arith, small)), h)
      | inr large ↦ rw large more
    ]

print-starts_hex :
    (fuel n : ℕ) (out : List ℕ)
    → (0 < fuel) ⊎ (starts_with_hex_digit out ≡ true)
    → starts_with_hex_digit (print_digits fuel 16 n out) ≡ true
unfolding print_digits
print-starts_hex zero n out h = ground (arith, h)
print-starts_hex (suc fuel) n out h =
    let d = digit_char (n % 16) in
    ground (arith, print-starts_hex fuel (n / 16) (d ∷ out), digit_char-hex (n % 16))

-- The directives 0x%x: the two characters, and then %x.
unfoldable pub read_prefixed : List ℕ → Option ℕ
unfolding read_hex
read_prefixed [] = none
read_prefixed (a ∷ []) = none
read_prefixed (a ∷ b ∷ cs) = if a == 48 && b == 120 then read_hex cs else none

-- Hexadecimal digits have no spaces, sign or prefix before them.
read-digits :
    (bytes : List ℕ)
    → AllHex bytes
    → starts_with_hex_digit bytes ≡ true
    → (read_hex bytes ≡ some (to_unsigned false (scan_hex bytes 0))) × (read_prefixed bytes ≡ none)
unfolding read_hex read_prefixed skip_spaces sign behind_prefix
read-digits [] all h = absurd (ground (arith, h))
read-digits (a ∷ []) all h = (ground (arith, all), refl)
read-digits (a ∷ b ∷ cs) all h = (ground (arith, all), ground (arith, all))

to_unsigned-small : (n : ℕ) → n < 2 ^ 32 → to_unsigned false n ≡ n
unfolding to_unsigned
to_unsigned-small n h = ground (arith, h)

-- A number of type unsigned int, printed with %x, is read back by %x, and by 0x%x if 0x stands before it.
pub read-hex :
    (n : ℕ)
    → n < 2 ^ 32
    → (read_hex (hex n) ≡ some n)
      × (read_prefixed (hex n) ≡ none)
      × (read_prefixed (48 ∷ 120 ∷ hex n) ≡ some n)
unfolding hex read_prefixed scan_hex
read-hex n h =
    let (plain, prefixed) =
      read-digits (hex n) (print-AllHex (suc n) n [] tt)
        (print-starts_hex (suc n) n [] (inl (omega arith))) in
    let value : scan_hex (hex n) 0 ≡ n = scan_hex-print (suc n) n [] (omega arith) in
    let read : read_hex (hex n) ≡ some n =
      plain ∙ ap some (ap (to_unsigned false) value ∙ to_unsigned-small n h) in
    (read, prefixed, ground (arith, read))

-- An int, printed with %d, is read back by atoi.
pub atoi-print_int : (z : ℤ) → magnitude z < 2 ^ 31 → atoi (print_int z) ≡ z
unfolding atoi
atoi-print_int z h =
    ap (λ (c : Conversion). wrap c.value) (strtoll-print_int_alone z (omega (arith, h)))
    ∙ wrap-small z h
