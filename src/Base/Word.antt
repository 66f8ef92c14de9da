-- ===== src/Base/Word.antt =====
-- The `int` arithmetic of a kernel built with wrapping overflow: 32 bits, arithmetic right shifts,
-- division towards zero.
use Prim.Native.Nat.{ℕ, suc, zero, ◌+◌, ◌-◌, ◌*◌, ◌/◌, ◌%◌, ◌^◌, ◌≤◌, ◌<◌}
use mathlib.Core.Path.{◌≡◌}
use native.Mathlib.Omega.{arith}
use native.Mathlib.Nat.{div-le_self}
use linux_driver_development.Base.Tests.{ltb, if◌then◌else◌}
use linux_driver_development.Base.Int.{ℤ, pos, negsuc, pos_part, neg_part, neg, ◌+ℤ◌, ◌-ℤ◌, ◌*ℤ◌}

-- The 32-bit pattern of an integer, and the `int` that a pattern stands for.
abbrev pub to_u32 : ℤ → ℕ
to_u32 (pos n) = n % 2 ^ 32
to_u32 (negsuc n) = 2 ^ 32 - 1 - n % 2 ^ 32

abbrev pub of_u32 : ℕ → ℤ
of_u32 w = if ltb w (2 ^ 31) then pos w else negsuc (2 ^ 32 - 1 - w)

unfoldable pub wrap : ℤ → ℤ
wrap z = of_u32 (to_u32 z)

-- x >> k on an `int`.
unfoldable pub sar : ℤ → ℕ → ℤ
sar (pos n) k = pos (n / 2 ^ k)
sar (negsuc n) k = negsuc (n / 2 ^ k)

-- x << k on an `int`, before wrapping.
unfoldable pub shl : ℤ → ℕ → ℤ
unfolding ◌*ℤ◌
shl z k = z *ℤ pos (2 ^ k)

-- x / y on an `int`, for y other than 0.
unfoldable pub quot : ℤ → ℤ → ℤ
quot (pos a) (pos b) = pos (a / b)
quot (pos a) (negsuc b) = neg (pos (a / suc b))
quot (negsuc a) (pos b) = neg (pos (suc a / b))
quot (negsuc a) (negsuc b) = pos (suc a / suc b)

-- The magnitude of an integer.
abbrev pub magnitude : ℤ → ℕ
magnitude z = pos_part z + neg_part z

pub wrap-small : (z : ℤ) → magnitude z < 2 ^ 31 → wrap z ≡ z
unfolding wrap
wrap-small (pos n) h = ground arith
wrap-small (negsuc n) h = ground arith

pub magnitude-+ℤ : (a b : ℤ) → magnitude (a +ℤ b) ≤ magnitude a + magnitude b
unfolding ◌+ℤ◌
magnitude-+ℤ a b = ground arith

pub magnitude--ℤ : (a b : ℤ) → magnitude (a -ℤ b) ≤ magnitude a + magnitude b
unfolding ◌-ℤ◌
magnitude--ℤ a b = ground arith

magnitude-neg : (n : ℕ) → magnitude (neg (pos n)) ≡ n
magnitude-neg zero = omega arith
magnitude-neg (suc n) = omega arith

pub magnitude-quot : (a b : ℤ) → magnitude (quot a b) ≤ magnitude a
unfolding quot
magnitude-quot (pos a) (pos b) = omega (arith, div-le_self a b)
magnitude-quot (pos a) (negsuc b) = omega (arith, magnitude-neg (a / suc b), div-le_self a (suc b))
magnitude-quot (negsuc a) (pos b) = omega (arith, magnitude-neg (suc a / b), div-le_self (suc a) b)
magnitude-quot (negsuc a) (negsuc b) = omega (arith, div-le_self (suc a) (suc b))

pub magnitude-sar : (a : ℤ) (k : ℕ) → magnitude (sar a k) ≤ magnitude a
unfolding sar
magnitude-sar (pos a) k = omega (arith, div-le_self a (2 ^ k))
magnitude-sar (negsuc a) k = omega (arith, div-le_self a (2 ^ k))

pub magnitude-*ℤ_pos : (a : ℤ) (n : ℕ) → magnitude (a *ℤ pos n) ≡ magnitude a * n
unfolding ◌*ℤ◌
magnitude-*ℤ_pos (pos a) n = ground arith
magnitude-*ℤ_pos (negsuc a) n = ground arith

pub magnitude-shl : (a : ℤ) (k : ℕ) → magnitude (shl a k) ≡ magnitude a * 2 ^ k
unfolding shl
magnitude-shl a k = magnitude-*ℤ_pos a (2 ^ k)

-- An arithmetic right shift by 15 leaves little.
pub magnitude-sar_fifteen : (a : ℤ) → magnitude (sar a 15) ≤ magnitude a / 2 ^ 15 + 1
unfolding sar
magnitude-sar_fifteen (pos n) = omega arith
magnitude-sar_fifteen (negsuc n) = omega arith
