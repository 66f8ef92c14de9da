-- ===== src/Bmp180/Within.antt =====
-- Bounds for the 32-bit arithmetic of Bmp180/Compensate: where the operands lie within bounds whose sum
-- or product is small enough, an operation is that of the integers, and its result lies within a bound.
use linux_driver_development.Base.{
  arith, magnitude, magnitude-+ℤ, magnitude-shl, negsuc, pos, sar, shl, wrap-small, ℕ, ℤ, ◌*ℤ◌, ◌*◌,
  ◌+ℤ◌, ◌+◌, ◌-ℤ◌, ◌/◌, ◌<◌, ◌^◌, ◌≡◌, ◌≤◌,
}
use linux_driver_development.Bmp180.Compensate.{
  +i-exact, -i-exact, shl32, shl32-exact, ◌*i◌, ◌+i◌, ◌-i◌,
}
use native.Mathlib.Nat.{
  div-mul-le_self, le-div_iff_mul-le, mul-le-mul, mul-le-mul_right, one-le-pow,
}

infix 4 ◌within◌
abbrev pub ◌within◌ : ℤ → ℕ → Type 0
a within n = magnitude a ≤ n

magnitude-*ℤ : (a b : ℤ) → magnitude (a *ℤ b) ≡ magnitude a * magnitude b
unfolding ◌*ℤ◌
magnitude-*ℤ (pos a) (pos b) = ground arith
magnitude-*ℤ (pos a) (negsuc b) = ground arith
magnitude-*ℤ (negsuc a) (pos b) = ground arith
magnitude-*ℤ (negsuc a) (negsuc b) = ground arith

pub within-+ :
    (a b : ℤ) (m n : ℕ)
    → a within m
    → b within n
    → m + n < 2 ^ 31
    → (a +i b ≡ a +ℤ b) × (a +ℤ b within m + n)
within-+ a b m n h k l = (+i-exact a b (omega arith), omega (arith, magnitude-+ℤ a b))

pub within-* :
    (a b : ℤ) (m n : ℕ)
    → a within m
    → b within n
    → m * n < 2 ^ 31
    → (a *i b ≡ a *ℤ b) × (a *ℤ b within m * n)
unfolding ◌*i◌
within-* a b m n h k l =
    let small : magnitude (a *ℤ b) ≤ m * n = omega (arith, magnitude-*ℤ a b, mul-le-mul h k) in
    (wrap-small (a *ℤ b) (omega arith), small)

div_mono : (a m k : ℕ) → a ≤ m → a / 2 ^ k ≤ m / 2 ^ k
div_mono a m k h =
    (le-div_iff_mul-le (one-le-pow k 2 (omega arith))).1 (omega (arith, div-mul-le_self a (2 ^ k)))

pub within-sar : (a : ℤ) (k m : ℕ) → a within m → sar a k within m / 2 ^ k + 1
unfolding sar
within-sar (pos a) k m h = omega (arith, div_mono a m k (omega arith))
within-sar (negsuc a) k m h = omega (arith, div_mono a m k (omega arith))

pub within-shl :
    (a : ℤ) (k m : ℕ)
    → a within m
    → m * 2 ^ k < 2 ^ 31
    → (shl32 a k ≡ shl a k) × (shl a k within m * 2 ^ k)
within-shl a k m h l =
    let small : magnitude (shl a k) ≤ m * 2 ^ k =
      omega (arith, magnitude-shl a k, mul-le-mul_right (2 ^ k) h) in
    (shl32-exact a k (omega (arith, magnitude-shl a k)), small)

pub minus-exact : (a b : ℤ) (m : ℕ) → a -ℤ b within m → m < 2 ^ 31 → a -i b ≡ a -ℤ b
minus-exact a b m h k = -i-exact a b (omega (arith, h, k))
