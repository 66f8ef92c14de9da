-- ===== src/Bmp180/Pressure.antt =====
-- The pressure part of `bmp_compensate` in 15_bmp180_i2c_sensor/sensor_read/bmp180_i2c_driver.c against
-- the formula over the integers.
pub mod Steps
pub mod Exact
use linux_driver_development.Base.{
  Option, if◌then◌else◌, ltb, neg_part, negsuc, none, pos, pos_part, sar, shl, some, ℕ, ℤ, ◌*ℤ◌,
  ◌*◌, ◌+ℤ◌, ◌-ℤ◌, ◌-◌, ◌/◌, ◌<◌, ◌==◌, ◌^◌, ◌≡◌, ◌≤◌,
}
use linux_driver_development.Bmp180.{BmpCalib}
use linux_driver_development.Bmp180.Within.{◌within◌}

-- The formula of the data sheet over the integers, with C's shifts and division, and nothing cut to 32
-- bits.
abbrev pub exact_b6 : ℤ → ℤ
exact_b6 b5 = b5 -ℤ pos 4000

unfoldable pub exact_square : ℤ → ℤ
exact_square b6 = sar (b6 *ℤ b6) 12

unfoldable pub exact_b3 : BmpCalib → ℕ → ℤ → ℤ
unfolding exact_square
exact_b3 c oss b6 =
    let x1 = sar (c.b2 *ℤ exact_square b6) 11 in
    let x2 = sar (c.ac2 *ℤ b6) 11 in sar (shl (c.ac1 *ℤ pos 4 +ℤ (x1 +ℤ x2)) oss +ℤ pos 2) 2

unfoldable pub exact_x3 : BmpCalib → ℤ → ℤ
unfolding exact_square
exact_x3 c b6 =
    let x1 = sar (c.ac3 *ℤ b6) 13 in
    let x2 = sar (c.b1 *ℤ exact_square b6) 16 in sar (x1 +ℤ x2 +ℤ pos 2) 2

unfoldable pub exact_b4 : BmpCalib → ℤ → ℕ
unfolding exact_x3
exact_b4 c b6 = c.ac4 * pos_part (exact_x3 c b6 +ℤ pos 32768) / 2 ^ 15

unfoldable pub exact_b7 : BmpCalib → ℕ → ℕ → ℤ → ℕ
unfolding exact_b3
exact_b7 c oss up b6 = pos_part (pos up -ℤ exact_b3 c oss b6) * (50000 / 2 ^ oss)

-- The pressure before its last correction.
unfoldable pub first_pres : ℕ → ℕ → ℕ
first_pres b7 b4 = if ltb b7 (2 ^ 31) then b7 * 2 / b4 else b7 / b4 * 2

unfoldable pub corrected : ℕ → ℤ
corrected p =
    let x1 = sar (sar (pos p) 8 *ℤ sar (pos p) 8 *ℤ pos 3038) 16 in
    let x2 = sar (negsuc 7356 *ℤ pos p) 16 in pos p +ℤ sar (x1 +ℤ x2 +ℤ pos 3791) 4

unfoldable pub exact_pres : BmpCalib → ℕ → ℕ → ℤ → Option ℤ
unfolding exact_b4 exact_b7 first_pres corrected
exact_pres c oss up b5 =
    let b6 = exact_b6 b5 in
    let b4 = exact_b4 c b6 in
    let b7 = exact_b7 c oss up b6 in if b4 == 0 then none else some (corrected (first_pres b7 b4))

-- The raw pressure is not below B3 and not so far above it that B7 leaves 32 bits; the temperature is
-- less than 102 degrees away from 25 degrees (160 units of B5 are a degree); and the pressure before the last
-- correction is below 215040 Pa.
pub record Measurable (c : BmpCalib) (oss up : ℕ) (b5 : ℤ) : Type 0 where
  pub oss_small : oss ≤ 3
  pub up_small : up < 2 ^ 19
  pub b6_small : exact_b6 b5 within 2 ^ 14 - 1
  pub above_b3 : neg_part (pos up -ℤ exact_b3 c oss (exact_b6 b5)) ≡ 0
  pub b7_fits : exact_b7 c oss up (exact_b6 b5) < 2 ^ 32
  pub pres_small : first_pres (exact_b7 c oss up (exact_b6 b5)) (exact_b4 c (exact_b6 b5)) < 215040
