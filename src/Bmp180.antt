-- ===== src/Bmp180.antt =====
-- 15_bmp180_i2c_sensor/sensor_read/bmp180_i2c_driver.c: a BMP180 sensor on the I2C bus. The bus is the
-- kernel's: its answers are a parameter (`I2c`), and what the driver asks of it is a list.
pub mod Compensate
pub mod Temperature
pub mod Within
pub mod Pressure
pub mod Calibration
pub mod Raw
pub mod Show
pub mod Ranges
pub mod Probe
mod Tests
use linux_driver_development.Base.{
  List, [], get_or, if◌then◌else◌, is_neg, ltb, neg, negsuc, nonzero, pos, pos_part, ℕ, ℤ, ◌%◌, ◌*◌,
  ◌+◌, ◌-◌, ◌/◌, ◌==◌, ◌^◌, ◌∷◌,
}
use linux_driver_development.Kernel.{eio}
use Prim.Native.Nat.{bit_or}

abbrev pub bmp_calib_reg : ℕ
bmp_calib_reg = 0xaa

abbrev pub bmp_meas_reg : ℕ
bmp_meas_reg = 0xf4

abbrev pub bmp_result_msb : ℕ
bmp_result_msb = 0xf6

abbrev pub bmp_ctrl_temp : ℕ
bmp_ctrl_temp = 0x2e

abbrev pub bmp_ctrl_pres : ℕ
bmp_ctrl_pres = 0x34

-- `struct bmp_calib`
pub record BmpCalib : Type 0 where
  pub ac1 : ℤ
  pub ac2 : ℤ
  pub ac3 : ℤ
  pub ac4 : ℕ
  pub ac5 : ℕ
  pub ac6 : ℕ
  pub b1 : ℤ
  pub b2 : ℤ
  pub mb : ℤ
  pub mc : ℤ
  pub md : ℤ

-- What i2c_smbus_read_i2c_block_data returns for a register and a length, with the bytes it stores,
-- and what i2c_smbus_write_byte_data returns for a register and a byte.
pub record I2c : Type 0 where
  pub read_block : ℕ → ℕ → ℤ × List ℕ
  pub write_byte : ℕ → ℕ → ℤ

-- What the driver does on the bus: write a byte to a register, sleep for some milliseconds, read a
-- block from a register.
pub data BusOp : Type 0 where
  write : ℕ → ℕ → BusOp
  msleep : ℕ → BusOp
  read : ℕ → ℕ → BusOp

-- `bmp_read_block`: its status, and the bytes.
unfoldable pub bmp_read_block : I2c → ℕ → ℕ → ℤ × List ℕ
bmp_read_block bus reg len =
    let (ret, buf) = bus.read_block reg len in
    if is_neg ret
    then (ret, buf)
    else if pos_part ret == len
    then (pos 0, buf)
    else (neg (pos eio), buf)

-- `(raw[i] << 8) | raw[i + 1]`
unfoldable pub be16 : List ℕ → ℕ → ℕ
be16 raw i = bit_or (get_or raw i 0 * 2 ^ 8) (get_or raw (i + 1) 0)

-- The cast to int16_t of a number below 2 ^ 16.
abbrev pub s16 : ℕ → ℤ
s16 w = if ltb w (2 ^ 15) then pos w else negsuc (2 ^ 16 - 1 - w)

-- The coefficients in 22 bytes.
pub parse_calib : List ℕ → BmpCalib
unfolding be16
parse_calib raw = record {
  ac1 = s16 (be16 raw 0);
  ac2 = s16 (be16 raw 2);
  ac3 = s16 (be16 raw 4);
  ac4 = be16 raw 6;
  ac5 = be16 raw 8;
  ac6 = be16 raw 10;
  b1 = s16 (be16 raw 12);
  b2 = s16 (be16 raw 14);
  mb = s16 (be16 raw 16);
  mc = s16 (be16 raw 18);
  md = s16 (be16 raw 20);
}

-- `bmp_read_calib`: an error status, or the coefficients.
pub data Result (A : Type 0) : Type 0 where
  ok : A → Result A
  err : ℤ → Result A

pub bmp_read_calib : I2c → Result BmpCalib
unfolding bmp_read_block parse_calib
bmp_read_calib bus =
    let (ret, raw) = bmp_read_block bus bmp_calib_reg 22 in
    if nonzero ret then err ret else ok (parse_calib raw)

-- `bmp_read_raw_temp`: UT or an error, and what was done on the bus, in order.
unfoldable pub bmp_read_raw_temp : I2c → Result ℕ × List BusOp
unfolding bmp_read_block be16
bmp_read_raw_temp bus =
    let ret = bus.write_byte bmp_meas_reg bmp_ctrl_temp in
    if is_neg ret
    then (err ret, write bmp_meas_reg bmp_ctrl_temp ∷ [])
    else (let (ret', tmp) = bmp_read_block bus bmp_result_msb 2 in
        (
          (if is_neg ret' then err ret' else ok (be16 tmp 0)),
          write bmp_meas_reg bmp_ctrl_temp ∷ msleep 5 ∷ read bmp_result_msb 2 ∷ [],
        ))

-- The command byte of a pressure conversion, `BMP_CTRL_PRES + (oss << 6)` in uint8_t.
abbrev pub pres_cmd : ℕ → ℕ
pres_cmd oss = (bmp_ctrl_pres + oss * 2 ^ 6) % 2 ^ 8

-- The `switch` on `oss`.
unfoldable pub pres_sleep : ℕ → ℕ
pres_sleep oss = if oss == 0 then 5 else if oss == 1 then 8 else if oss == 2 then 14 else 26

-- `((buf[0] << 16) | (buf[1] << 8) | buf[2]) >> (8 - oss)`
unfoldable pub raw_pres : List ℕ → ℕ → ℕ
raw_pres buf oss =
    bit_or (bit_or (get_or buf 0 0 * 2 ^ 16) (get_or buf 1 0 * 2 ^ 8)) (get_or buf 2 0)
    / 2 ^ (8 - oss)

-- `bmp_read_raw_pres`: UP or an error, and what was done on the bus, in order.
unfoldable pub bmp_read_raw_pres : I2c → ℕ → Result ℕ × List BusOp
unfolding bmp_read_block
bmp_read_raw_pres bus oss =
    let ret = bus.write_byte bmp_meas_reg (pres_cmd oss) in
    if is_neg ret
    then (err ret, write bmp_meas_reg (pres_cmd oss) ∷ [])
    else (let (ret', buf) = bmp_read_block bus bmp_result_msb 3 in
        (
          (if is_neg ret' then err ret' else ok (raw_pres buf oss)),
          write bmp_meas_reg (pres_cmd oss) ∷ msleep (pres_sleep oss) ∷ read bmp_result_msb 3 ∷ [],
        ))
