-- ===== src/Bmp180/Temperature.antt =====
-- The temperature part of `bmp_compensate` in 15_bmp180_i2c_sensor/sensor_read/bmp180_i2c_driver.c
-- against the formula over the integers.
use linux_driver_development.Base.{
  Option, arith, if◌then◌else◌, magnitude, magnitude-*ℤ_pos, magnitude-quot, magnitude-sar_fifteen,
  magnitude-shl, none, nonzero, pos, quot, sar, shl, some, wrap-small, ℤ, ◌*ℤ◌, ◌*◌, ◌+ℤ◌, ◌+◌,
  ◌-ℤ◌, ◌<◌, ◌^◌, ◌≡◌, ◌≤◌,
}
use linux_driver_development.Bmp180.{BmpCalib}
use linux_driver_development.Bmp180.Compensate.{*i-exact, +i-exact, -i-exact, shl32-exact, temp_b5}

-- The formula of the code over the integers, with nothing cut to 32 bits.
unfoldable pub exact_b5 : BmpCalib → ℤ → Option ℤ
exact_b5 c ut =
    let x1 = sar ((ut -ℤ pos c.ac6) *ℤ pos c.ac5) 15 in
    let divisor = x1 +ℤ c.md in
    if nonzero divisor then some (x1 +ℤ quot (shl c.mc 11) divisor) else none

-- The ranges of the coefficients that the temperature uses, and of the product that they bound.
pub record Fits (c : BmpCalib) (ut : ℤ) : Type 0 where
  pub product : magnitude (ut -ℤ pos c.ac6) * c.ac5 < 2 ^ 31
  pub difference : magnitude (ut -ℤ pos c.ac6) < 2 ^ 31
  pub md_small : magnitude c.md ≤ 2 ^ 15
  pub mc_small : magnitude c.mc ≤ 2 ^ 15

-- Where the first product fits 32 bits and MC and MD are 16-bit values, no step of the temperature
-- overflows: B5 is that of the formula over the integers, a division by zero included.
pub temp_b5-eq_exact : (c : BmpCalib) (ut : ℤ) → Fits c ut → temp_b5 c ut ≡ exact_b5 c ut
unfolding temp_b5 exact_b5
temp_b5-eq_exact c ut f =
    let e = ut -ℤ pos c.ac6 in
    let product = e *ℤ pos c.ac5 in
    let x1 = sar product 15 in
    let x1_small : magnitude x1 ≤ 2 ^ 16 + 1 =
      omega (arith, magnitude-sar_fifteen product, magnitude-*ℤ_pos e c.ac5) in
    let scaled = shl c.mc 11 in
    let scaled_small : magnitude scaled ≤ 2 ^ 26 = omega (arith, magnitude-shl c.mc 11) in
    let ratio = quot scaled (x1 +ℤ c.md) in
    let ratio_small : magnitude ratio ≤ 2 ^ 26 =
      omega (arith, magnitude-quot scaled (x1 +ℤ c.md)) in
    rw (
      -i-exact ut (pos c.ac6) f.difference,
      *i-exact e c.ac5 f.product,
      +i-exact x1 c.md (omega arith),
      shl32-exact c.mc 11 (omega arith),
      wrap-small ratio (omega arith),
      +i-exact x1 ratio (omega arith),
    )
