-- ===== src/Bmp180/Calibration.antt =====
-- `bmp_read_calib` of 15_bmp180_i2c_sensor/sensor_read/bmp180_i2c_driver.c reads what the sensor's
-- memory stores: eleven big-endian 16-bit values.
use linux_driver_development.Base.{
  List, [], arith, bit_or-shifted, if◌then◌else◌, is_neg, neg, neg_part, negsuc, pos, pos_part, ℕ,
  ℤ, ◌%◌, ◌*◌, ◌-◌, ◌/◌, ◌<◌, ◌^◌, ◌∷◌, ◌≡◌, ◌≢◌, ◌≤◌,
}
use linux_driver_development.Kernel.{eio}
use linux_driver_development.Bmp180.{BmpCalib, I2c, bmp_calib_reg, bmp_read_calib, err, ok, s16}
use Prim.Native.Nat.{bit_or}

abbrev pub hi : ℕ → ℕ
hi w = w / 2 ^ 8

abbrev pub lo : ℕ → ℕ
lo w = w % 2 ^ 8

-- The 16-bit pattern of a signed value.
abbrev pub u16 : ℤ → ℕ
u16 (pos n) = n % 2 ^ 16
u16 (negsuc n) = 2 ^ 16 - 1 - n % 2 ^ 16

-- The sensor's memory.
abbrev pub encode_calib : BmpCalib → List ℕ
encode_calib c =
    hi (u16 c.ac1)
    ∷ lo (u16 c.ac1)
    ∷ hi (u16 c.ac2)
    ∷ lo (u16 c.ac2)
    ∷ hi (u16 c.ac3)
    ∷ lo (u16 c.ac3)
    ∷ hi c.ac4
    ∷ lo c.ac4
    ∷ hi c.ac5
    ∷ lo c.ac5
    ∷ hi c.ac6
    ∷ lo c.ac6
    ∷ hi (u16 c.b1)
    ∷ lo (u16 c.b1)
    ∷ hi (u16 c.b2)
    ∷ lo (u16 c.b2)
    ∷ hi (u16 c.mb)
    ∷ lo (u16 c.mb)
    ∷ hi (u16 c.mc)
    ∷ lo (u16 c.mc)
    ∷ hi (u16 c.md)
    ∷ lo (u16 c.md)
    ∷ []

-- The values of an int16_t.
abbrev pub IsS16 : ℤ → Type 0
IsS16 z = (pos_part z < 2 ^ 15) × (neg_part z ≤ 2 ^ 15)

pub record InRange (c : BmpCalib) : Type 0 where
  pub ac1_fits : IsS16 c.ac1
  pub ac2_fits : IsS16 c.ac2
  pub ac3_fits : IsS16 c.ac3
  pub ac4_fits : c.ac4 < 2 ^ 16
  pub ac5_fits : c.ac5 < 2 ^ 16
  pub ac6_fits : c.ac6 < 2 ^ 16
  pub b1_fits : IsS16 c.b1
  pub b2_fits : IsS16 c.b2
  pub mb_fits : IsS16 c.mb
  pub mc_fits : IsS16 c.mc
  pub md_fits : IsS16 c.md

joined : (w : ℕ) → bit_or (hi w * 2 ^ 8) (lo w) ≡ w
joined w = omega (arith, bit_or-shifted 8 (hi w) (lo w) (omega arith))

s16-u16 : (z : ℤ) → IsS16 z → s16 (bit_or (hi (u16 z) * 2 ^ 8) (lo (u16 z))) ≡ z
s16-u16 (pos n) h = rw (joined (n % 2 ^ 16)) (ground arith)
s16-u16 (negsuc n) h = rw (joined (2 ^ 16 - 1 - n % 2 ^ 16)) (ground arith)

-- Where the sensor answers the read of its 22 bytes with the coefficients c in its format, all of
-- them in the ranges of their types, `bmp_read_calib` succeeds with c.
pub bmp_read_calib-encode_calib :
    (bus : I2c) (c : BmpCalib)
    → InRange c
    → bus.read_block bmp_calib_reg 22 ≡ (pos 22, encode_calib c)
    → bmp_read_calib bus ≡ ok c
unfolding bmp_read_calib
bmp_read_calib-encode_calib bus c r e = rw e (λ i. ok (record {
  ac1 = s16-u16 c.ac1 r.ac1_fits i;
  ac2 = s16-u16 c.ac2 r.ac2_fits i;
  ac3 = s16-u16 c.ac3 r.ac3_fits i;
  ac4 = joined c.ac4 i;
  ac5 = joined c.ac5 i;
  ac6 = joined c.ac6 i;
  b1 = s16-u16 c.b1 r.b1_fits i;
  b2 = s16-u16 c.b2 r.b2_fits i;
  mb = s16-u16 c.mb r.mb_fits i;
  mc = s16-u16 c.mc r.mc_fits i;
  md = s16-u16 c.md r.md_fits i;
}))

-- A bus error is passed on, and a read of another number of bytes is -EIO: then there are no
-- coefficients.
pub bmp_read_calib_fails :
    (bus : I2c)
    → (bus.read_block bmp_calib_reg 22).0 ≢ pos 22
    → bmp_read_calib bus
      ≡ err (
          if is_neg (bus.read_block bmp_calib_reg 22).0
          then (bus.read_block bmp_calib_reg 22).0
          else neg (pos eio))
unfolding bmp_read_calib
bmp_read_calib_fails bus h = ground arith
