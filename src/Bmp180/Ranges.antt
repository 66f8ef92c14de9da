-- ===== src/Bmp180/Ranges.antt =====
-- What the show functions of 15_bmp180_i2c_sensor/sensor_read/bmp180_i2c_driver.c print is an int.
use linux_driver_development.Base.{
  Bool, Option, Option-cases, arith, if◌then◌else◌, inl, inr, magnitude, magnitude-sar, negsuc,
  none, pos, refl, some, wrap, ℕ, ℤ, ◌+ℤ◌, ◌^◌, ◌≡◌, ◌≢◌, ◌≤◌, ◌⊎◌,
}
use linux_driver_development.Bmp180.{
  BmpCalib, I2c, Result, bmp_read_raw_pres, bmp_read_raw_temp, err, ok,
}
use linux_driver_development.Bmp180.Compensate.{bmp_compensate, pres_of, temp_b5, temp_of, ◌+i◌}
use linux_driver_development.Bmp180.Show.{
  BmpClient, Shown, divides_by_zero, failed, measure, pressure_input_show, printed, temp_input_show,
}

-- A number in the range of an int.
abbrev pub IsInt : ℤ → Type 0
IsInt z = magnitude z ≤ 2 ^ 31

wrap-IsInt : (z : ℤ) → IsInt (wrap z)
unfolding wrap
wrap-IsInt (pos n) = ground arith
wrap-IsInt (negsuc n) = ground arith

temp_of-IsInt : (b5 : ℤ) → IsInt (temp_of b5)
unfolding temp_of ◌+i◌
temp_of-IsInt b5 = omega (arith, magnitude-sar (b5 +i pos 8) 4, wrap-IsInt (b5 +ℤ pos 8))

sum-IsInt : (a b : ℤ) → IsInt (a +i b)
unfolding ◌+i◌
sum-IsInt a b = wrap-IsInt (a +ℤ b)

otherwise-IsInt : (b : Bool) (z p : ℤ) → IsInt z → (if b then none else some z) ≡ some p → IsInt p
otherwise-IsInt b z p i h = ground (arith, i, h)

pres_of-IsInt :
    (c : BmpCalib) (oss : ℕ) (up b5 : ℤ) {p : ℤ} → pres_of c oss up b5 ≡ some p → IsInt p
unfolding pres_of
pres_of-IsInt c oss up b5 {p} h = otherwise-IsInt _ _ p (sum-IsInt _ _) h

compensate-IsInt :
    (c : BmpCalib) (oss : ℕ) (ut up : ℤ) {both : ℤ × ℤ}
    → bmp_compensate c oss ut up ≡ some both
    → IsInt both.0 × IsInt both.1
unfolding bmp_compensate
compensate-IsInt c oss ut up {both} h = elim (Option-cases (temp_b5 c ut)) [
  | inl n ↦ ground (arith, n, h)
  | inr (b5, e) ↦ elim (Option-cases (pres_of c oss up b5)) [
    | inl n ↦ ground (arith, e, n, h)
    | inr (p, q) ↦ ground (arith, e, q, h, temp_of-IsInt b5, pres_of-IsInt c oss up b5 q)
  ]
]

-- A show function comes back with an int or an error, unless it divides by zero.
abbrev pub PrintsInt : Shown → Type 0
PrintsInt (printed z) = IsInt z
PrintsInt (failed e) = Unit
PrintsInt divides_by_zero = ⊥

Result-cases : (r : Result ℕ) → ((e : ℤ) × (r ≡ err e)) ⊎ ((n : ℕ) × (r ≡ ok n))
Result-cases (err e) = inl (e, refl)
Result-cases (ok n) = inr (n, refl)

measure-PrintsInt :
    (pick : ℤ × ℤ → ℤ) (bus : I2c) (bc : BmpClient)
    → ((both : ℤ × ℤ) → IsInt both.0 × IsInt both.1 → IsInt (pick both))
    → measure pick bus (some bc) ≢ divides_by_zero
    → PrintsInt (measure pick bus (some bc))
unfolding measure
measure-PrintsInt pick bus bc i n = elim (Result-cases (bmp_read_raw_temp bus).0) [
  | inl (e, q) ↦ ground (arith, q)
  | inr (ut, q) ↦ elim (Result-cases (bmp_read_raw_pres bus bc.oversample).0) [
    | inl (e, r) ↦ ground (arith, q, r)
    | inr (up, r) ↦ elim (Option-cases (bmp_compensate bc.calib bc.oversample (pos ut) (pos up))) [
      | inl z ↦ absurd (n (ground (arith, q, r, z)))
      | inr (both, z) ↦
          let small = i both (compensate-IsInt bc.calib bc.oversample (pos ut) (pos up) z) in
          ground (arith, q, r, z, small)
    ]
  ]
]

-- Each show function, unless it divides by zero, prints a number that is an int or returns an error,
-- whatever the bus answers and whatever the calibration is.
pub shows-PrintsInt :
    (bus : I2c) (client : Option BmpClient)
    → temp_input_show bus client ≢ divides_by_zero
    → pressure_input_show bus client ≢ divides_by_zero
    → PrintsInt (temp_input_show bus client) × PrintsInt (pressure_input_show bus client)
unfolding temp_input_show pressure_input_show measure
shows-PrintsInt bus none n m = (tt, tt)
shows-PrintsInt bus (some bc) n m = (
  measure-PrintsInt (λ both. both.0) bus bc (λ both h. h.0) n,
  measure-PrintsInt (λ both. both.1) bus bc (λ both h. h.1) m,
)
