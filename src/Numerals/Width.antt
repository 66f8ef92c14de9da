-- ===== src/Numerals/Width.antt =====
-- How long the texts of numbers are.
use native.Mathlib.Nat.{pow-succ', pow-zero, div-lt_iff_lt-mul}
use linux_driver_development.Base.{
  List, [], ap, arith, length, length-append, length-replicate, replicate, suc, zero, ℕ, ◌%◌, ◌*◌,
  ◌+◌, ◌-◌, ◌/◌, ◌<◌, ◌^◌, ◌∙◌, ◌∷◌, ◌≡◌, ◌≤◌,
}
use linux_driver_development.Numerals.{digit_char, hex, padded_hex, print_digits}

module _ (base : ℕ) (large : 1 < base) where
  quotient_below : (n m : ℕ) → n < base * m → n / base < m
  quotient_below n m h = (div-lt_iff_lt-mul (omega arith)).1 (omega (arith, h))

  -- A number below base ^ k has at most k digits, but for 0.
  pub length-print_digits :
      (fuel k n : ℕ) (out : List ℕ)
      → n < base ^ suc k
      → length (print_digits fuel base n out) ≤ suc k + length out
  unfolding print_digits
  length-print_digits zero k n out h = omega arith
  length-print_digits (suc fuel) zero n out h =
      let once : base ^ 1 ≡ base =
        pow-succ' base 0 ∙ ap (λ k. base * k) (pow-zero base) ∙ omega arith in
      let small : n < base = omega (arith, h, once) in ground (arith, small)
  length-print_digits (suc fuel) (suc k) n out h =
      let below = quotient_below n (base ^ suc k) (omega (arith, h, pow-succ' base (suc k))) in
      let more = length-print_digits fuel k (n / base) (digit_char (n % base) ∷ out) below in
      ground (arith, more)

-- A number below 16 ^ 3, padded to three places or to four, takes just that many.
pub length-padded_hex :
    (n : ℕ) → n < 16 ^ 3 → (length (padded_hex 3 n) ≡ 3) × (length (padded_hex 4 n) ≡ 4)
unfolding padded_hex hex
length-padded_hex n h =
    let text = print_digits (suc n) 16 n [] in
    let short = length-print_digits 16 (omega arith) (suc n) 2 n [] h in
    (
      omega (
        arith,
        short,
        length-append (replicate (3 - length text) 48) text,
        length-replicate {A = ℕ} (3 - length text) 48,
      ),
      omega (
        arith,
        short,
        length-append (replicate (4 - length text) 48) text,
        length-replicate {A = ℕ} (4 - length text) 48,
      ),
    )
