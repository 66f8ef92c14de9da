-- ===== src/Bmp180/Compensate.antt =====
-- `bmp_compensate` of 15_bmp180_i2c_sensor/sensor_read/bmp180_i2c_driver.c, in its int32_t and uint32_t
-- arithmetic. A C name that is assigned twice has a name for each value here.
use linux_driver_development.Base.{
  Option, arith, if◌then◌else◌, ltb, magnitude, magnitude-*ℤ_pos, magnitude-+ℤ, magnitude-shl,
  negsuc, none, nonzero, of_u32, pos, quot, sar, shl, some, to_u32, wrap, wrap-small, ℕ, ℤ, ◌%◌,
  ◌*ℤ◌, ◌*◌, ◌+ℤ◌, ◌+◌, ◌-ℤ◌, ◌-◌, ◌/◌, ◌<◌, ◌==◌, ◌^◌, ◌≡◌,
}
use linux_driver_development.Bmp180.{BmpCalib}

infixl 65 ◌+i◌ ◌-i◌
infixl 70 ◌*i◌
unfoldable pub ◌+i◌ : ℤ → ℤ → ℤ
a +i b = wrap (a +ℤ b)

unfoldable pub ◌-i◌ : ℤ → ℤ → ℤ
a -i b = wrap (a -ℤ b)

unfoldable pub ◌*i◌ : ℤ → ℤ → ℤ
a *i b = wrap (a *ℤ b)

unfoldable pub shl32 : ℤ → ℕ → ℤ
shl32 a k = wrap (shl a k)

-- Lines 165 to 167: B5, the value that the temperature and the pressure are computed from. `none`
-- is a division by zero.
unfoldable pub temp_b5 : BmpCalib → ℤ → Option ℤ
temp_b5 c ut =
    let x1 = sar ((ut -i pos c.ac6) *i pos c.ac5) 15 in
    let divisor = x1 +i c.md in
    if nonzero divisor then some (x1 +i wrap (quot (shl32 c.mc 11) divisor)) else none

-- Line 180: tenths of a degree.
unfoldable pub temp_of : ℤ → ℤ
temp_of b5 = sar (b5 +i pos 8) 4

-- Lines 183 to 203: the pressure. `none` is a division by zero.
unfoldable pub pres_of : BmpCalib → ℕ → ℤ → ℤ → Option ℤ
pres_of c oss up b5 =
    let b6 = b5 -i pos 4000 in
    let square = sar (b6 *i b6) 12 in
    let x1 = sar (c.b2 *i square) 11 in
    let x2 = sar (c.ac2 *i b6) 11 in
    let b3 = sar (shl32 (c.ac1 *i pos 4 +i (x1 +i x2)) oss +i pos 2) 2 in
    let x1' = sar (c.ac3 *i b6) 13 in
    let x2' = sar (c.b1 *i square) 16 in
    let x3' = sar (x1' +i x2' +i pos 2) 2 in
    let b4 = (c.ac4 * to_u32 (x3' +i pos 32768)) % 2 ^ 32 / 2 ^ 15 in
    let b7 = ((to_u32 up + 2 ^ 32 - to_u32 b3) % 2 ^ 32 * (50000 / 2 ^ oss)) % 2 ^ 32 in
    if b4 == 0
    then none
    else (let p = of_u32 (if ltb b7 0x80000000 then b7 * 2 / b4 else b7 / b4 * 2 % 2 ^ 32) in
        let x1'' = sar (sar p 8 *i sar p 8 *i pos 3038) 16 in
        let x2'' = sar (negsuc 7356 *i p) 16 in some (p +i sar (x1'' +i x2'' +i pos 3791) 4))

-- The temperature and the pressure.
unfoldable pub bmp_compensate : BmpCalib → ℕ → ℤ → ℤ → Option (ℤ × ℤ)
unfolding temp_b5 temp_of pres_of ◌+i◌ ◌-i◌ ◌*i◌ shl32 sar quot wrap shl ◌+ℤ◌ ◌-ℤ◌ ◌*ℤ◌
bmp_compensate c oss ut up = elim (temp_b5 c ut) [
  | none ↦ none
  | some b5 ↦ elim (pres_of c oss up b5) [ none ↦ none | some p ↦ some (temp_of b5, p) ]
]

-- Where the operands are small enough nothing wraps.
pub +i-exact : (a b : ℤ) → magnitude a + magnitude b < 2 ^ 31 → a +i b ≡ a +ℤ b
unfolding ◌+i◌
+i-exact a b h = wrap-small (a +ℤ b) (omega (arith, magnitude-+ℤ a b))

pub -i-exact : (a b : ℤ) → magnitude (a -ℤ b) < 2 ^ 31 → a -i b ≡ a -ℤ b
unfolding ◌-i◌
-i-exact a b h = wrap-small (a -ℤ b) h

pub *i-exact : (a : ℤ) (n : ℕ) → magnitude a * n < 2 ^ 31 → a *i pos n ≡ a *ℤ pos n
unfolding ◌*i◌
*i-exact a n h = wrap-small (a *ℤ pos n) (omega (arith, magnitude-*ℤ_pos a n))

pub shl32-exact : (a : ℤ) (k : ℕ) → magnitude a * 2 ^ k < 2 ^ 31 → shl32 a k ≡ shl a k
unfolding shl32
shl32-exact a k h = wrap-small (shl a k) (omega (arith, magnitude-shl a k))
