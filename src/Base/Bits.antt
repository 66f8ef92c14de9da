-- ===== src/Base/Bits.antt =====
-- Bytes put together by shifts and `|`, as numbers.
use Prim.Native.Nat.{
  ℕ, zero, suc, ◌+◌, ◌*◌, ◌/◌, ◌%◌, ◌≤◌, ◌<◌, ◌^◌, max, bit_or, digits, bit_or-bitwise,
}
use mathlib.Core.Path.{◌≡◌, refl, ◌∙◌}
use native.Mathlib.Omega.{arith}
use native.Mathlib.Nat.{pow-suc}

-- The recursion on binary digits that `bit_or` stands for, run on n rounds.
abbrev rounds : ℕ → ℕ → ℕ → ℕ
rounds n a b = digits (λ x. x) max n a b

rounds-enough : (m n a b : ℕ) → a ≤ m → a ≤ n → rounds m a b ≡ rounds n a b
rounds-enough zero zero a b p q = refl
rounds-enough zero (suc n) zero b p q = refl
rounds-enough zero (suc n) (suc a) b p q = elim p [ ]
rounds-enough (suc m) zero zero b p q = refl
rounds-enough (suc m) zero (suc a) b p q = elim q [ ]
rounds-enough (suc m) (suc n) zero b p q = refl
rounds-enough (suc m) (suc n) (suc a) b p q =
    omega (arith, rounds-enough m n (suc a / 2) (b / 2) (omega arith) (omega arith))

bit_or_zero_left : (b : ℕ) → bit_or 0 b ≡ b
bit_or_zero_left b = bit_or-bitwise 0 b

-- The lowest digit of `a | b`.
bit_or-halves : (a b : ℕ) → bit_or a b ≡ bit_or (a / 2) (b / 2) * 2 + max (a % 2) (b % 2)
bit_or-halves zero b = omega (arith, bit_or_zero_left b, bit_or_zero_left (b / 2))
bit_or-halves (suc a) b = omega (
  arith,
  bit_or-bitwise (suc a) b,
  bit_or-bitwise (suc a / 2) (b / 2),
  rounds-enough a (suc a / 2) (suc a / 2) (b / 2) (omega arith) (omega arith),
)

bit_or_zero_right : (n a : ℕ) → a ≤ n → bit_or a 0 ≡ a
bit_or_zero_right n zero h = refl
bit_or_zero_right zero (suc a) h = elim h [ ]
bit_or_zero_right (suc n) (suc a) h =
    omega (arith, bit_or-halves (suc a) 0, bit_or_zero_right n (suc a / 2) (omega arith))

double_shift : (k x : ℕ) → x * 2 ^ suc k ≡ (x * 2 ^ k) * 2
double_shift k x = rw (pow-suc 2 k) (grind arith)

halved : (k x : ℕ) → x * 2 ^ suc k / 2 ≡ x * 2 ^ k
halved k x = omega (arith, double_shift k x)

-- A number shifted left by k places and a number of k digits.
pub bit_or-shifted : (k x b : ℕ) → b < 2 ^ k → bit_or (x * 2 ^ k) b ≡ x * 2 ^ k + b
bit_or-shifted zero x b h =
    let none_left : b ≡ 0 = omega arith in
    rw none_left (bit_or_zero_right (x * 2 ^ 0) (x * 2 ^ 0) (omega arith) ∙ omega arith)
bit_or-shifted (suc k) x b h =
    let small : b < 2 ^ k * 2 = rw (pow-suc 2 k) at h in
    let low = rw (halved k x) at (bit_or-halves (x * 2 ^ suc k) b) in
    omega (arith, low, double_shift k x, bit_or-shifted k x (b / 2) (omega arith))
