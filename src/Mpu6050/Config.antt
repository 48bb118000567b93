-- ===== src/Mpu6050/Config.antt =====
-- mpu6050_lib.h: the packed interrupt pin configuration, and the default configuration.
use Prim.Native.Nat.{bit_or}
use linux_device_drivers_hw.Base.{
  ℕ, ◌*◌, ◌^◌, Bool, true, false, ◌≡◌, refl, not, ◌&&◌, arith, to_nat, test_bit,
}
use linux_device_drivers_hw.Mpu6050.Regs.{
  accel_scale_2g, accel_value, dlpf_cf_184hz, dlpf_value, fifo_enable_all, gyro_scale_250,
  gyro_value, int_data_rdy_en, int_en_value, int_fifo_oflow_en, smplrt_div, user_ctrl_value,
  userctrl_fifo_en,
}

-- The two-valued enums and the flags of INT_PIN_CFG, by their bit.
record PinCfg : Type 0 where
  pub level : Bool
  open_type : Bool
  latch : Bool
  int_rd_clear : Bool
  fsync_level : Bool
  fsync_en : Bool
  i2c_bypass : Bool

-- mpu6050_int_pin_cfg_pack
unfoldable int_pin_cfg_pack : PinCfg → ℕ
int_pin_cfg_pack c =
    let v1 = bit_or 0 (to_nat c.level * 2 ^ 7) in
    let v2 = bit_or v1 (to_nat c.open_type * 2 ^ 6) in
    let v3 = bit_or v2 (to_nat c.latch * 2 ^ 5) in
    let v4 = bit_or v3 (to_nat c.int_rd_clear * 2 ^ 4) in
    let v5 = bit_or v4 (to_nat c.fsync_level * 2 ^ 3) in
    let v6 = bit_or v5 (to_nat c.fsync_en * 2 ^ 2) in bit_or v6 (to_nat c.i2c_bypass * 2 ^ 1)

-- mpu6050_int_pin_cfg_unpack
unfoldable int_pin_cfg_unpack : ℕ → PinCfg
int_pin_cfg_unpack v = record {
  level = test_bit v 7;
  open_type = test_bit v 6;
  latch = test_bit v 5;
  int_rd_clear = test_bit v 4;
  fsync_level = test_bit v 3;
  fsync_en = test_bit v 2;
  i2c_bypass = test_bit v 1;
}

abbrev pin_cfg : Bool → Bool → Bool → Bool → Bool → Bool → Bool → PinCfg
pin_cfg level open_type latch clear fsync_level fsync_en bypass = record {
  level = level;
  open_type = open_type;
  latch = latch;
  int_rd_clear = clear;
  fsync_level = fsync_level;
  fsync_en = fsync_en;
  i2c_bypass = bypass;
}

-- A test passes at both values.
abbrev every : (Bool → Bool) → Bool
every p = p true && p false

every_sound : (p : Bool → Bool) (b : Bool) → every p ≡ true → p b ≡ true
every_sound p true h = ground arith
every_sound p false h = ground arith

abbrev same : Bool → Bool → Bool
same true b = b
same false b = not b

same_sound : (a b : Bool) → same a b ≡ true → a ≡ b
same_sound a b h = ground arith

abbrev same_cfg : PinCfg → PinCfg → Bool
same_cfg c d =
    same c.level d.level
    && same c.open_type d.open_type
    && same c.latch d.latch
    && same c.int_rd_clear d.int_rd_clear
    && same c.fsync_level d.fsync_level
    && same c.fsync_en d.fsync_en
    && same c.i2c_bypass d.i2c_bypass

same_cfg_sound : (c d : PinCfg) → same_cfg c d ≡ true → c ≡ d
same_cfg_sound c d h = ground arith

round_trips : Bool → Bool → Bool → Bool → Bool → Bool → Bool → Bool
unfolding int_pin_cfg_pack int_pin_cfg_unpack
round_trips a b c d e f g =
    let v = pin_cfg a b c d e f g in same_cfg (int_pin_cfg_unpack (int_pin_cfg_pack v)) v

-- All 128 configurations, by evaluation.
round_trip_table :
    every (λ a. every (λ b.
      every (λ c. every (λ d. every (λ e. every (λ f. every (λ g. round_trips a b c d e f g)))))))
    ≡ true
unfolding round_trips
round_trip_table = refl

round_trips_all : (a b c d e f g : Bool) → round_trips a b c d e f g ≡ true
round_trips_all a b c d e f g =
    every_sound (λ g'. round_trips a b c d e f g') g
      (every_sound (λ f'. every (λ g'. round_trips a b c d e f' g')) f
        (every_sound (λ e'. every (λ f'. every (λ g'. round_trips a b c d e' f' g'))) e
          (every_sound
            (λ d'. every (λ e'. every (λ f'. every (λ g'. round_trips a b c d' e' f' g')))) d
            (every_sound
              (λ c'.
                every
                  (λ d'. every (λ e'. every (λ f'. every (λ g'. round_trips a b c' d' e' f' g')))))
              c
              (every_sound
                (λ b'. every (λ c'. every (λ d'.
                  every (λ e'. every (λ f'. every (λ g'. round_trips a b' c' d' e' f' g'))))))
                b
                (every_sound
                  (λ a'. every (λ b'. every (λ c'. every (λ d'.
                    every (λ e'. every (λ f'. every (λ g'. round_trips a' b' c' d' e' f' g')))))))
                  a round_trip_table))))))

unpack-pack_at :
    (a b c d e f g : Bool)
    → int_pin_cfg_unpack (int_pin_cfg_pack (pin_cfg a b c d e f g)) ≡ pin_cfg a b c d e f g
unfolding round_trips
unpack-pack_at a b c d e f g = same_cfg_sound _ _ (round_trips_all a b c d e f g)

-- Unpacking a packed configuration gives back each of its seven settings.
unpack-pack : (c : PinCfg) → int_pin_cfg_unpack (int_pin_cfg_pack c) ≡ c
unpack-pack c =
    unpack-pack_at c.level c.open_type c.latch c.int_rd_clear c.fsync_level c.fsync_en c.i2c_bypass

-- mpu6050_config_full_t, with the register values that the enums stand for.
pub record Config : Type 0 where
  pub accel_scale : ℕ
  pub gyro_scale : ℕ
  pub dlpf_cfg : ℕ
  pub sample_rate_div : ℕ
  pub fifo_en : ℕ
  pub int_pin_cfg : ℕ
  pub int_enable : ℕ
  pub user_ctrl : ℕ

-- DEFAULT_MPU6050_CONFIG
unfoldable pub default_config : Config
unfolding int_pin_cfg_pack
default_config = record {
  accel_scale = accel_value accel_scale_2g;
  gyro_scale = gyro_value gyro_scale_250;
  dlpf_cfg = dlpf_value dlpf_cf_184hz;
  sample_rate_div = smplrt_div 7;
  fifo_en = fifo_enable_all;
  int_pin_cfg = int_pin_cfg_pack (record {
    level = true;
    open_type = false;
    latch = false;
    int_rd_clear = false;
    fsync_level = false;
    fsync_en = false;
    i2c_bypass = false;
  });
  int_enable = bit_or (int_en_value int_data_rdy_en) (int_en_value int_fifo_oflow_en);
  user_ctrl = user_ctrl_value userctrl_fifo_en;
}
