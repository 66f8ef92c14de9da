-- ===== src/Bmp180/Raw.antt =====
-- The raw measurements of 15_bmp180_i2c_sensor/sensor_read/bmp180_i2c_driver.c.
use linux_driver_development.Base.{
  Bool-cases, [], arith, bit_or-shifted, false, inl, inr, is_neg, suc, true, zero, ℕ, ◌*◌, ◌+◌, ◌-◌,
  ◌/◌, ◌<◌, ◌^◌, ◌∷◌, ◌≡◌, ◌≤◌, ◌⊎◌,
}
use linux_driver_development.Bmp180.{
  I2c, bmp_meas_reg, bmp_read_raw_pres, bmp_result_msb, err, msleep, pres_cmd, pres_sleep, raw_pres,
  read, write,
}

-- The conversion times that the comment in `bmp_read_raw_pres` gives, in tenths of a millisecond.
abbrev pub conversion_time : ℕ → ℕ
conversion_time zero = 45
conversion_time (suc zero) = 75
conversion_time (suc (suc zero)) = 135
conversion_time _ = 255

regroup : (x y : ℕ) → x * 2 ^ 16 + y * 2 ^ 8 ≡ (x * 2 ^ 8 + y) * 2 ^ 8
regroup x y = omega arith

raw_pres-sum :
    (x y z oss : ℕ)
    → x < 2 ^ 8
    → y < 2 ^ 8
    → z < 2 ^ 8
    → raw_pres (x ∷ y ∷ z ∷ []) oss ≡ (x * 2 ^ 16 + y * 2 ^ 8 + z) / 2 ^ (8 - oss)
unfolding raw_pres
raw_pres-sum x y z oss hx hy hz = rw (
  bit_or-shifted 16 x (y * 2 ^ 8) (omega arith),
  regroup x y,
  bit_or-shifted 8 (x * 2 ^ 8 + y) z hz,
)

narrow : (w oss : ℕ) → w < 2 ^ 24 → oss ≤ 3 → w / 2 ^ (8 - oss) < 2 ^ (16 + oss)
narrow w zero h le = omega arith
narrow w (suc zero) h le = omega arith
narrow w (suc (suc zero)) h le = omega arith
narrow w (suc (suc (suc zero))) h le = omega arith
narrow w (suc (suc (suc (suc n)))) h le = absurd (omega arith)

long_enough : (oss : ℕ) → oss ≤ 3 → conversion_time oss ≤ pres_sleep oss * 10
unfolding pres_sleep
long_enough zero h = omega arith
long_enough (suc zero) h = omega arith
long_enough (suc (suc zero)) h = omega arith
long_enough (suc (suc (suc zero))) h = omega arith
long_enough (suc (suc (suc (suc n)))) h = absurd (omega arith)

-- For three bytes and each of the four settings of `oss`, the raw pressure is the 24-bit big-endian
-- number shifted right by 8 - oss, and has 16 + oss bits.
pub raw_pres-bits :
    (x y z oss : ℕ)
    → x < 2 ^ 8
    → y < 2 ^ 8
    → z < 2 ^ 8
    → oss ≤ 3
    → let up = raw_pres (x ∷ y ∷ z ∷ []) oss in
      (up ≡ (x * 2 ^ 16 + y * 2 ^ 8 + z) / 2 ^ (8 - oss)) × (up < 2 ^ (16 + oss))
unfolding raw_pres
raw_pres-bits x y z oss hx hy hz ho =
    let raw = raw_pres-sum x y z oss hx hy hz in
    (raw, rw raw (narrow (x * 2 ^ 16 + y * 2 ^ 8 + z) oss (omega arith) ho))

-- For each setting of `oss`, a pressure measurement whose command the bus takes writes the command
-- byte with `oss` in its two upper bits, sleeps for at least the conversion time, and only then reads
-- the result; if the bus refuses the command, it returns the bus's error and does neither.
pub bmp_read_raw_pres_waits :
    (bus : I2c) (oss : ℕ)
    → oss ≤ 3
    → let cmd = 0x34 + oss * 2 ^ 6 in
      let (result, ops) = bmp_read_raw_pres bus oss in
      (is_neg (bus.write_byte bmp_meas_reg cmd) ≡ true)
        × (result ≡ err (bus.write_byte bmp_meas_reg cmd))
        × (ops ≡ write bmp_meas_reg cmd ∷ [])
      ⊎ (is_neg (bus.write_byte bmp_meas_reg cmd) ≡ false)
        × ((ms : ℕ) × (ops ≡ write bmp_meas_reg cmd ∷ msleep ms ∷ read bmp_result_msb 3 ∷ [])
            × (conversion_time oss ≤ ms * 10))
unfolding bmp_read_raw_pres
bmp_read_raw_pres_waits bus oss h =
    let cmd = 0x34 + oss * 2 ^ 6 in
    let same_cmd : pres_cmd oss ≡ cmd = omega arith in
    elim (Bool-cases (is_neg (bus.write_byte bmp_meas_reg cmd))) [
      | inl refused ↦ inl (refused, ground arith, ground arith)
      | inr taken ↦ inr (taken, (pres_sleep oss, ground arith, long_enough oss h))
    ]
