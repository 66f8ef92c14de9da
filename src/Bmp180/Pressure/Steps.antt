-- ===== src/Bmp180/Pressure/Steps.antt =====
-- The steps of the pressure formula, in 32 bits and over the integers.
use linux_driver_development.Bmp180.Calibration.{InRange, IsS16}
use linux_driver_development.Base.{
  ap, arith, if◌then◌else◌, ltb, neg_part, negsuc, of_u32, pos, pos_part, refl, sar, shl, to_u32, ℕ,
  ℤ, ◌%◌, ◌*ℤ◌, ◌*◌, ◌+ℤ◌, ◌+◌, ◌-ℤ◌, ◌-◌, ◌/◌, ◌<◌, ◌^◌, ◌∙◌, ◌≡◌, ◌≤◌,
}
use linux_driver_development.Kernel.{same}
use linux_driver_development.Bmp180.{BmpCalib}
use linux_driver_development.Bmp180.Compensate.{shl32, ◌*i◌, ◌+i◌}
use linux_driver_development.Bmp180.Within.{within-*, within-+, within-sar, within-shl, ◌within◌}
use linux_driver_development.Bmp180.Pressure.{
  corrected, exact_b3, exact_square, exact_x3, first_pres,
}
use native.Mathlib.Nat.{mul-le-mul, pow-le-pow_right}

IsS16-within : (z : ℤ) → IsS16 z → z within 2 ^ 15
IsS16-within (pos n) h = omega (arith, h.0)
IsS16-within (negsuc n) h = omega (arith, h.1)

pub square-within :
    (b6 : ℤ) → b6 within 2 ^ 14 - 1 → (b6 *i b6 ≡ b6 *ℤ b6) × (exact_square b6 within 65529)
unfolding exact_square
square-within b6 h =
    let (same, small) = within-* b6 b6 (2 ^ 14 - 1) (2 ^ 14 - 1) h h (omega arith) in
    (same, omega (arith, within-sar (b6 *ℤ b6) 12 ((2 ^ 14 - 1) * (2 ^ 14 - 1)) small))

-- The code's B3, B4 and B7 from the exact B6 and the exact square.
unfoldable pub code_b3 : BmpCalib → ℕ → ℤ → ℤ
code_b3 c oss b6 =
    let x1 = sar (c.b2 *i exact_square b6) 11 in
    let x2 = sar (c.ac2 *i b6) 11 in sar (shl32 (c.ac1 *i pos 4 +i (x1 +i x2)) oss +i pos 2) 2

unfoldable pub code_x3 : BmpCalib → ℤ → ℤ
code_x3 c b6 =
    let x1 = sar (c.ac3 *i b6) 13 in
    let x2 = sar (c.b1 *i exact_square b6) 16 in sar (x1 +i x2 +i pos 2) 2

module _ {c : BmpCalib} (cal : InRange c) (b6 : ℤ) (b6_small : b6 within 2 ^ 14 - 1) where
  pub b3-exact :
      (oss : ℕ)
      → oss ≤ 3
      → (code_b3 c oss b6 ≡ exact_b3 c oss b6) × (exact_b3 c oss b6 within 2883333)
  unfolding code_b3 exact_b3
  b3-exact oss oss_small =
      let sq = exact_square b6 in
      let (e1, s1) =
        within-* c.b2 sq (2 ^ 15) 65529 (IsS16-within c.b2 cal.b2_fits)
          (square-within b6 b6_small).1 (omega arith) in
      let x1 = sar (c.b2 *ℤ sq) 11 in
      let t1 : x1 within 1048465 = within-sar (c.b2 *ℤ sq) 11 (2 ^ 15 * 65529) s1 in
      let (e2, s2) =
        within-* c.ac2 b6 (2 ^ 15) (2 ^ 14 - 1) (IsS16-within c.ac2 cal.ac2_fits) b6_small
          (omega arith) in
      let x2 = sar (c.ac2 *ℤ b6) 11 in
      let t2 : x2 within 262129 = within-sar (c.ac2 *ℤ b6) 11 (2 ^ 15 * (2 ^ 14 - 1)) s2 in
      let (e3, s3) =
        within-* c.ac1 (pos 4) (2 ^ 15) 4 (IsS16-within c.ac1 cal.ac1_fits) (omega arith)
          (omega arith) in
      let (e4, s4) = within-+ x1 x2 1048465 262129 t1 t2 (omega arith) in
      let (e5, s5) = within-+ (c.ac1 *ℤ pos 4) (x1 +ℤ x2) 131072 1310594 s3 s4 (omega arith) in
      let whole = c.ac1 *ℤ pos 4 +ℤ (x1 +ℤ x2) in
      let eight : 2 ^ oss ≤ 8 = pow-le-pow_right {n = 2} (omega arith) oss_small in
      let (e6, s6) = within-shl whole oss 1441666 s5 (omega arith) in
      let (e7, s7) =
        within-+ (shl whole oss) (pos 2) 11533328 2 (omega arith) (omega arith) (omega arith) in
      (rw (e1, e2, e3, e4, e5, e6, e7) refl, within-sar (shl whole oss +ℤ pos 2) 2 11533330 s7)

  pub x3-exact : (code_x3 c b6 ≡ exact_x3 c b6) × (exact_x3 c b6 within 24576)
  unfolding code_x3 exact_x3
  x3-exact =
      let sq = exact_square b6 in
      let (e1, s1) =
        within-* c.ac3 b6 (2 ^ 15) (2 ^ 14 - 1) (IsS16-within c.ac3 cal.ac3_fits) b6_small
          (omega arith) in
      let x1 = sar (c.ac3 *ℤ b6) 13 in
      let t1 : x1 within 65533 = within-sar (c.ac3 *ℤ b6) 13 (2 ^ 15 * (2 ^ 14 - 1)) s1 in
      let (e2, s2) =
        within-* c.b1 sq (2 ^ 15) 65529 (IsS16-within c.b1 cal.b1_fits)
          (square-within b6 b6_small).1 (omega arith) in
      let x2 = sar (c.b1 *ℤ sq) 16 in
      let t2 : x2 within 32765 = within-sar (c.b1 *ℤ sq) 16 (2 ^ 15 * 65529) s2 in
      let (e3, s3) = within-+ x1 x2 65533 32765 t1 t2 (omega arith) in
      let (e4, s4) = within-+ (x1 +ℤ x2) (pos 2) 98298 2 s3 (omega arith) (omega arith) in
      (rw (e1, e2, e3, e4) refl, within-sar (x1 +ℤ x2 +ℤ pos 2) 2 98300 s4)

-- A sum that is not negative as a 32-bit pattern, and the difference of the raw pressure and B3.
pub to_u32-sum :
    (x3 : ℤ)
    → x3 within 24576
    → (x3 +i pos 32768 ≡ x3 +ℤ pos 32768)
      × (to_u32 (x3 +ℤ pos 32768) ≡ pos_part (x3 +ℤ pos 32768))
      × (pos_part (x3 +ℤ pos 32768) ≤ 57344)
unfolding ◌+ℤ◌
to_u32-sum x3 h = (
  (within-+ x3 (pos 32768) 24576 32768 h (omega arith) (omega arith)).0,
  ground (arith, h),
  ground (arith, h),
)

pub to_u32-difference :
    (up : ℕ) (b3 : ℤ)
    → up < 2 ^ 19
    → b3 within 2883333
    → neg_part (pos up -ℤ b3) ≡ 0
    → (to_u32 (pos up) + 2 ^ 32 - to_u32 b3) % 2 ^ 32 ≡ pos_part (pos up -ℤ b3)
unfolding ◌-ℤ◌
to_u32-difference up b3 h k n = ground (arith, h, k, n)

eighth : (p : ℕ) → p < 215040 → sar (pos p) 8 within 839
unfolding sar
eighth p h = omega arith

-- The code's last lines, from B7 and B4 on.
unfoldable pub code_correction : ℤ → ℤ
code_correction p =
    let x1 = sar (sar p 8 *i sar p 8 *i pos 3038) 16 in
    let x2 = sar (negsuc 7356 *i p) 16 in p +i sar (x1 +i x2 +i pos 3791) 4

correction-exact : (p : ℕ) → p < 215040 → code_correction (pos p) ≡ corrected p
unfolding code_correction corrected
correction-exact p h =
    let q = sar (pos p) 8 in
    let q_small : q within 839 = eighth p h in
    let (e1, s1) = within-* q q 839 839 q_small q_small (omega arith) in
    let (e2, s2) = within-* (q *ℤ q) (pos 3038) 703921 3038 s1 (omega arith) (omega arith) in
    let x1 = sar (q *ℤ q *ℤ pos 3038) 16 in
    let t1 : x1 within 32632 = within-sar (q *ℤ q *ℤ pos 3038) 16 2138511998 s2 in
    let (e3, s3) =
      within-* (negsuc 7356) (pos p) 7357 215039 (omega arith) (omega arith) (omega arith) in
    let x2 = sar (negsuc 7356 *ℤ pos p) 16 in
    let t2 : x2 within 24141 = within-sar (negsuc 7356 *ℤ pos p) 16 1582041923 s3 in
    let (e4, s4) = within-+ x1 x2 32632 24141 t1 t2 (omega arith) in
    let (e5, s5) = within-+ (x1 +ℤ x2) (pos 3791) 56773 3791 s4 (omega arith) (omega arith) in
    let last = sar (x1 +ℤ x2 +ℤ pos 3791) 4 in
    let t3 : last within 3786 = within-sar (x1 +ℤ x2 +ℤ pos 3791) 4 60564 s5 in
    let (e6, s6) = within-+ (pos p) last 215039 3786 (omega arith) t3 (omega arith) in
    rw (e1, e2, e3, e4, e5, e6) refl

of_u32-first_pres :
    (b7 b4 : ℕ)
    → first_pres b7 b4 < 215040
    → of_u32 (if ltb b7 (2 ^ 31) then b7 * 2 / b4 else b7 / b4 * 2 % 2 ^ 32)
      ≡ pos (first_pres b7 b4)
unfolding first_pres
of_u32-first_pres b7 b4 h = ground (arith, h)

pub last-exact :
    (b7 b4 : ℕ)
    → first_pres b7 b4 < 215040
    → code_correction (of_u32 (if ltb b7 (2 ^ 31) then b7 * 2 / b4 else b7 / b4 * 2 % 2 ^ 32))
      ≡ corrected (first_pres b7 b4)
last-exact b7 b4 h =
    ap code_correction (of_u32-first_pres b7 b4 h) ∙ correction-exact (first_pres b7 b4) h

-- The product in B4 fits 32 bits.
pub b4-fits : {c : BmpCalib} → InRange c → (n : ℕ) → n ≤ 57344 → c.ac4 * n < 2 ^ 32
b4-fits {c} cal n h =
    omega (arith, mul-le-mul {n₁ = c.ac4} {n₂ = 65535} (omega (arith, cal.ac4_fits)) h)

pub below_wrap : (n : ℕ) → n < 2 ^ 32 → n % 2 ^ 32 ≡ n
below_wrap n h = omega (arith, h)
