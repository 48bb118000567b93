-- ===== src/Bmp280.antt =====
-- 04_I2C/i2c_bmp280.c: the BMP280 pressure sensor behind an I2C adapter. The SMBus functions are a
-- parameter: a transfer's answer depends on its register only.
pub mod Compensate
pub mod Start
pub mod Text
use linux_device_drivers_hw.Base.{
  ℕ, ◌+◌, ◌-◌, ◌*◌, ◌/◌, ◌%◌, Bool, true, false, not, List, [], ◌∷◌, ◌++◌, ℤ, pos, negsuc, is_neg,
  is_zero, signed16, if◌then◌else◌, get_or, ◌==◌,
}
use linux_device_drivers_hw.Base.Errno.{eio, enodev}

-- i2c_smbus_read_byte_data, i2c_smbus_write_byte_data and i2c_smbus_read_i2c_block_data, with what
-- the last one puts into the caller's array.
pub record Smbus : Type 0 where
  pub read_byte : ℕ → ℤ
  pub write_byte : ℕ → ℕ → ℤ
  pub read_block : ℕ → ℕ → ℤ × List ℕ

-- calib_data_t
pub record CalibData : Type 0 where
  pub dig_t1 : ℕ
  pub dig_t2 : ℤ
  pub dig_t3 : ℤ
  pub dig_p1 : ℕ
  pub dig_p2 : ℤ
  pub dig_p3 : ℤ
  pub dig_p4 : ℤ
  pub dig_p5 : ℤ
  pub dig_p6 : ℤ
  pub dig_p7 : ℤ
  pub dig_p8 : ℤ
  pub dig_p9 : ℤ

-- raw_data_t
pub record RawData : Type 0 where
  pub press_msb : ℕ
  pub press_lsb : ℕ
  pub press_xlsb : ℕ
  pub temp_msb : ℕ
  pub temp_lsb : ℕ
  pub temp_xlsb : ℕ

-- The globals, with the registers written so far, the last one first.
pub record Bmp280 : Type 0 where
  pub client : Bool
  pub calib_data : CalibData
  pub registered : Bool
  pub written : List (ℕ × ℕ)

-- le16_to_cpup
unfoldable le16 : List ℕ → ℕ → ℕ
le16 buf i = get_or buf i 0 + 256 * get_or buf (i + 1) 0

-- The calibration values in the order of the registers.
unfoldable pub parse_calib : List ℕ → CalibData
unfolding le16
parse_calib buf = record {
  dig_t1 = le16 buf 0;
  dig_t2 = signed16 (le16 buf 2);
  dig_t3 = signed16 (le16 buf 4);
  dig_p1 = le16 buf 6;
  dig_p2 = signed16 (le16 buf 8);
  dig_p3 = signed16 (le16 buf 10);
  dig_p4 = signed16 (le16 buf 12);
  dig_p5 = signed16 (le16 buf 14);
  dig_p6 = signed16 (le16 buf 16);
  dig_p7 = signed16 (le16 buf 18);
  dig_p8 = signed16 (le16 buf 20);
  dig_p9 = signed16 (le16 buf 22);
}

-- A call's result that has to be a number of bytes: the error, -EIO for another number, or 0.
unfoldable block_status : ℕ → ℤ → ℤ
block_status n (negsuc e) = negsuc e
block_status n (pos got) = if got == n then pos 0 else eio

-- The chip identity: the error, -ENODEV for another chip, or 0.
unfoldable chip_status : ℤ → ℤ
chip_status (negsuc e) = negsuc e
chip_status (pos id) = if id == 0x58 then pos 0 else enodev

-- A write to a register.
unfoldable pub write_reg : Smbus → ℕ → ℕ → Bmp280 → ℤ × Bmp280
write_reg bus reg value d =
    (bus.write_byte reg value, record d { written = (reg, value) ∷ d.written })

-- The reading of the calibration.
unfoldable load_calib : Smbus → Bmp280 → ℤ × Bmp280
unfolding block_status
load_calib bus d =
    let (ret, buf) = bus.read_block 0x88 24 in
    let status = block_status 24 ret in
    if is_zero status then (pos 0, record d { calib_data = parse_calib buf }) else (status, d)

-- A call whose negative result is the end, and what follows it otherwise.
unfoldable and_then : ℤ × Bmp280 → (Bmp280 → ℤ × Bmp280) → ℤ × Bmp280
and_then (ret, d) rest = if is_neg ret then (ret, d) else rest d

-- init_bmp280
unfoldable pub init_bmp280 : Smbus → Bmp280 → ℤ × Bmp280
unfolding chip_status write_reg and_then load_calib
init_bmp280 bus d =
    let status = chip_status (bus.read_byte 0xd0) in
    if not (is_zero status)
    then (status, d)
    else and_then (write_reg bus 0xf4 0x6f d)
        (λ d1. and_then (write_reg bus 0xf5 0x90 d1) (λ d2. load_calib bus d2))

-- remove_bmp280
unfoldable remove_bmp280 : Smbus → Bmp280 → ℤ × Bmp280
unfolding write_reg and_then
remove_bmp280 bus d = and_then (write_reg bus 0xe0 0xb6 d) (λ d1. (pos 0, d1))

-- dev_probe behind init_bmp280, with what misc_register returns.
unfoldable pub register : ℤ → ℤ × Bmp280 → ℤ × Bmp280
register misc_ret (ret, d) =
    if not (is_zero ret)
    then (ret, d)
    else if not (is_zero misc_ret)
    then (misc_ret, d)
    else (pos 0, record d { registered = true })

-- dev_probe
unfoldable pub dev_probe : Smbus → ℤ → Bmp280 → ℤ × Bmp280
unfolding init_bmp280 register
dev_probe bus misc_ret d = register misc_ret (init_bmp280 bus (record d { client = true }))

-- dev_remove
unfoldable dev_remove : Smbus → Bmp280 → Bmp280
unfolding remove_bmp280
dev_remove bus d = record (remove_bmp280 bus d).1 { registered = false }

-- The six registers of a reading, whose last bytes count with their upper halves.
unfoldable pub parse_raw : List ℕ → RawData
parse_raw buf = record {
  press_msb = get_or buf 0 0;
  press_lsb = get_or buf 1 0;
  press_xlsb = get_or buf 2 0 / 16;
  temp_msb = get_or buf 3 0;
  temp_lsb = get_or buf 4 0;
  temp_xlsb = get_or buf 5 0 / 16;
}

-- read_raw_data: a status, and the reading that goes with a status of 0.
unfoldable pub read_raw_data : Smbus → ℤ × RawData
unfolding block_status parse_raw
read_raw_data bus = let (ret, buf) = bus.read_block 0xf7 6 in (block_status 6 ret, parse_raw buf)
