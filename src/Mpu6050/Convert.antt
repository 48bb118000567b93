-- ===== src/Mpu6050/Convert.antt =====
-- mpu6050_kdd_raw_to_sample_fixed of mpu6050_kdd_primitives.h: raw readings to milli-units.
use linux_device_drivers_hw.Base.{
  ℕ, suc, ◌+◌, ◌*◌, ◌/◌, ◌≤◌, ◌≡◌, ℤ, pos, negsuc, pos_part, neg_part, sub_ℕ, ◌+ℤ◌, ◌*ℤ◌, ◌≤ℤ◌,
  quot, arith, ◌==◌, if◌then◌else◌,
}
use linux_device_drivers_hw.Mpu6050.Regs.{
  accel_scale_16g, accel_scale_2g, accel_scale_4g, accel_scale_8g, accel_value, gyro_scale_1000,
  gyro_scale_2000, gyro_scale_250, gyro_scale_500, gyro_value,
}

-- mpu6050_raw_t
pub record Raw : Type 0 where
  pub ax : ℤ
  pub ay : ℤ
  pub az : ℤ
  pub temp : ℤ
  pub gx : ℤ
  pub gy : ℤ
  pub gz : ℤ

-- mpu6050_sample_fixed_t
pub record SampleFixed : Type 0 where
  pub ax_mg : ℤ
  pub ay_mg : ℤ
  pub az_mg : ℤ
  pub gx_mdps : ℤ
  pub gy_mdps : ℤ
  pub gz_mdps : ℤ
  pub temp_mdegc : ℤ

-- The full scale in g of an ACCEL_CONFIG value; what is no scale counts as 2 g.
unfoldable pub accel_full_scale : ℕ → ℕ
accel_full_scale scale =
    if scale == accel_value accel_scale_2g
    then 2
    else if scale == accel_value accel_scale_4g
    then 4
    else if scale == accel_value accel_scale_8g
    then 8
    else if scale == accel_value accel_scale_16g
    then 16
    else 2

-- The full scale in degrees per second of a GYRO_CONFIG value.
unfoldable pub gyro_full_scale : ℕ → ℕ
gyro_full_scale scale =
    if scale == gyro_value gyro_scale_250
    then 250
    else if scale == gyro_value gyro_scale_500
    then 500
    else if scale == gyro_value gyro_scale_1000
    then 1000
    else if scale == gyro_value gyro_scale_2000
    then 2000
    else 250

-- `(int)(((s64)v * fs * 1000) / 32768)`
unfoldable pub scaled : ℤ → ℕ → ℤ
scaled v fs = quot (v *ℤ pos fs *ℤ pos 1000) 32768

-- `(int)(((s64)v * 1000) / 340 + 36530)`
unfoldable pub milli_celsius : ℤ → ℤ
milli_celsius v = quot (v *ℤ pos 1000) 340 +ℤ pos 36530

unfoldable pub raw_to_sample_fixed : ℕ → ℕ → Raw → SampleFixed
raw_to_sample_fixed accel_scale gyro_scale r =
    let a = accel_full_scale accel_scale in
    let g = gyro_full_scale gyro_scale in
    record {
      ax_mg = scaled r.ax a;
      ay_mg = scaled r.ay a;
      az_mg = scaled r.az a;
      gx_mdps = scaled r.gx g;
      gy_mdps = scaled r.gy g;
      gz_mdps = scaled r.gz g;
      temp_mdegc = milli_celsius r.temp;
    }

-- A `short`.
abbrev pub IsShort : ℤ → Type 0
IsShort v = (negsuc 32767 ≤ℤ v) × (v ≤ℤ pos 32767)

-- The magnitude of an integer.
abbrev pub abs : ℤ → ℕ
abs v = pos_part v + neg_part v

scaled_pos : (n fs : ℕ) → scaled (pos n) fs ≡ pos (n * fs * 1000 / 32768)
unfolding scaled ◌*ℤ◌
scaled_pos n fs = ground arith

scaled_neg : (n fs : ℕ) → scaled (negsuc n) fs ≡ sub_ℕ 0 (suc n * fs * 1000 / 32768)
unfolding scaled ◌*ℤ◌
scaled_neg n fs = ground arith

scaled_bound : (v : ℤ) (fs : ℕ) → IsShort v → abs (scaled v fs) ≤ fs * 1000
scaled_bound (pos n) fs h = let p : n * fs ≤ 32767 * fs = grind arith in rw scaled_pos (omega arith)
scaled_bound (negsuc n) fs h =
    let p : suc n * fs ≤ 32768 * fs = grind arith in rw scaled_neg (ground arith)

pub record IsRaw (r : Raw) : Type 0 where
  pub ax : IsShort r.ax
  pub ay : IsShort r.ay
  pub az : IsShort r.az
  pub temp : IsShort r.temp
  pub gx : IsShort r.gx
  pub gy : IsShort r.gy
  pub gz : IsShort r.gz

full_scales : (scale : ℕ) → (accel_full_scale scale ≤ 16) × (gyro_full_scale scale ≤ 2000)
unfolding accel_full_scale gyro_full_scale
full_scales scale = ground arith

milli_celsius_range :
    (v : ℤ) → IsShort v → (negsuc 59845 ≤ℤ milli_celsius v) × (milli_celsius v ≤ℤ pos 132903)
unfolding milli_celsius ◌*ℤ◌ ◌+ℤ◌
milli_celsius_range (pos n) h = ground arith
milli_celsius_range (negsuc n) h = ground arith

-- What a converted sample is bounded by, with the two full scales.
pub record IsScaled (accel gyro : ℕ) (o : SampleFixed) : Type 0 where
  pub ax : abs o.ax_mg ≤ accel * 1000
  pub ay : abs o.ay_mg ≤ accel * 1000
  pub az : abs o.az_mg ≤ accel * 1000
  pub gx : abs o.gx_mdps ≤ gyro * 1000
  pub gy : abs o.gy_mdps ≤ gyro * 1000
  pub gz : abs o.gz_mdps ≤ gyro * 1000
  pub temp : (negsuc 59845 ≤ℤ o.temp_mdegc) × (o.temp_mdegc ≤ℤ pos 132903)
  pub scales : (accel ≤ 16) × (gyro ≤ 2000)

-- For readings that are shorts and any scale settings, each acceleration and each rate that
-- mpu6050_kdd_raw_to_sample_fixed computes is in magnitude at most a thousand times the full scale
-- of its setting, which is at most 16 and 2000, and the temperature lies between -59846 and 132903
-- thousandths of a degree: every field fits an int.
pub raw_to_sample_fixed-IsScaled :
    (accel_scale gyro_scale : ℕ) (r : Raw)
    → IsRaw r
    → IsScaled
        (accel_full_scale accel_scale)
        (gyro_full_scale gyro_scale)
        (raw_to_sample_fixed accel_scale gyro_scale r)
unfolding raw_to_sample_fixed
raw_to_sample_fixed-IsScaled accel_scale gyro_scale r h = record {
  ax = scaled_bound r.ax _ h.ax;
  ay = scaled_bound r.ay _ h.ay;
  az = scaled_bound r.az _ h.az;
  gx = scaled_bound r.gx _ h.gx;
  gy = scaled_bound r.gy _ h.gy;
  gz = scaled_bound r.gz _ h.gz;
  temp = milli_celsius_range r.temp h.temp;
  scales = ((full_scales accel_scale).0, (full_scales gyro_scale).1);
}
