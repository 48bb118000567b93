-- ===== src/Kdd.antt =====
-- 08_BeagleBone_pdev/mpu6050_kdd_primitives.c, the same but for a log message in
-- 06_I2C_w_IRQ_MPU6050 and 07_BeagleBone: the sensor's primitives over the SMBus functions of the
-- kernel's I2C core. The pointer to the device is the address of a static object, so the tests of
-- `dev` do not arise; those of its client do.
pub mod Fifo
pub mod Ends
pub mod Short
pub mod Frames
pub mod Through
pub mod SameProgram
pub mod SameFifo
use linux_device_drivers_hw.Base.{
  ℕ, ◌%◌, ◌^◌, ◌≤◌, ◌<◌, Bool, true, false, ◌≡◌, ◌⊎◌, List, Option, none, some, ℤ, pos, negsuc,
  is_zero, is_neg, if◌then◌else◌, pos_part, length, All,
}
use linux_device_drivers_hw.Mpu6050.Regs.{
  reg_accel_config, reg_config, reg_fifo_en, reg_gyro_config, reg_int_enable, reg_int_pin_cfg,
  reg_int_status, reg_pwr_mgmt_1, reg_signal_path_reset, reg_smplrt_div, reg_user_ctrl,
  reg_who_am_i, signal_path_reset_all, user_ctrl_value, userctrl_fifo_en, userctrl_fifo_reset,
}
use linux_device_drivers_hw.Mpu6050.Config.{Config}
use linux_device_drivers_hw.Mpu6050.Device.{mpu_ok, mpu_err}

-- What i2c_smbus_read_i2c_block_data does: a negative error, or the bytes that it copies to the
-- caller.
pub data Reply : Type 0 where
  failed : ℕ → Reply
  bytes : List ℕ → Reply

-- The I2C core: its functions of a client, a register, and a value or a length. A write returns no
-- positive number, a read a byte or a negative error, and a block is of
-- bytes, at most as many as asked for.
pub record I2cCore : Type 1 where
  pub State : Type 0
  pub write_byte_data : ℕ → ℕ → ℕ → State → ℤ × State
  pub read_byte_data : ℕ → ℕ → State → ℤ × State
  pub read_i2c_block_data : ℕ → ℕ → ℕ → State → Reply × State
  pub write_sign :
      (client reg val : ℕ) (s : State)
      → ((write_byte_data client reg val s).0 ≡ pos 0)
        ⊎ (is_neg (write_byte_data client reg val s).0 ≡ true)
  pub read_range :
      (client reg : ℕ) (s : State)
      → (is_neg (read_byte_data client reg s).0 ≡ true)
        ⊎ ((v : ℕ) × ((read_byte_data client reg s).0 ≡ pos v) × (v < 256))
  pub block_fits :
      (client reg len : ℕ) (s : State) (b : List ℕ)
      → (read_i2c_block_data client reg len s).0 ≡ bytes b
      → (length b ≤ len) × All (λ v. v < 256) b

-- mpu6050_t
pub record Mpu : Type 0 where
  pub client : Option ℕ
  pub accel_scale : ℕ
  pub gyro_scale : ℕ
  pub initialized : Bool

module _ (B : I2cCore) where
  -- mpu6050_write_reg of a device with or without its client
  unfoldable pub mpu6050_write_reg : Option ℕ → ℕ → ℕ → B.State → ℤ × B.State
  mpu6050_write_reg none reg val s = (mpu_err, s)
  mpu6050_write_reg (some client) reg val s =
      let r = B.write_byte_data client (reg % 256) (val % 256) s in
      (if is_neg r.0 then r.0 else mpu_ok, r.1)

  -- `if (mpu6050_write_reg(..) != MPU6050_OK) return MPU6050_ERR;` and what follows it
  abbrev pub write_or_err : Option ℕ → ℕ → ℕ → (B.State → ℤ × B.State) → B.State → ℤ × B.State
  write_or_err client reg val rest s =
      let r = mpu6050_write_reg client reg val s in
      let after = rest r.1 in if is_zero r.0 then after else (mpu_err, r.1)

  -- mpu6050_kdd_reset_fifo
  unfoldable pub mpu6050_kdd_reset_fifo : Option ℕ → B.State → ℤ × B.State
  mpu6050_kdd_reset_fifo none s = (mpu_err, s)
  mpu6050_kdd_reset_fifo (some client) s =
      write_or_err (some client) reg_user_ctrl 0
        (write_or_err (some client) reg_user_ctrl (user_ctrl_value userctrl_fifo_reset) (
          write_or_err (some client) reg_user_ctrl (user_ctrl_value userctrl_fifo_en)
            (λ t. (mpu_ok, t))))
        s

  -- mpu6050_kdd_reset: the result of the reset of the FIFO is not looked at; the first write goes
  -- to the I2C core itself.
  unfoldable pub mpu6050_kdd_reset : Option ℕ → B.State → ℤ × B.State
  mpu6050_kdd_reset none s = (mpu_err, s)
  mpu6050_kdd_reset (some client) s =
      let f = mpu6050_kdd_reset_fifo (some client) s in
      let r = B.write_byte_data client reg_pwr_mgmt_1 0x80 f.1 in
      let after =
        write_or_err (some client) reg_signal_path_reset signal_path_reset_all (λ t. (mpu_ok, t))
          r.1 in
      if is_neg r.0 then (mpu_err, r.1) else after

  -- mpu6050_kdd_whoami: the value is stored only on success.
  unfoldable pub mpu6050_kdd_whoami : Option ℕ → B.State → (ℤ × Option ℕ) × B.State
  mpu6050_kdd_whoami none s = ((mpu_err, none), s)
  mpu6050_kdd_whoami (some client) s =
      let r = B.read_byte_data client reg_who_am_i s in
      if is_neg r.0 then ((mpu_err, none), r.1) else ((mpu_ok, some (pos_part r.0 % 256)), r.1)

  -- What mpu6050_kdd_init does behind the reset: all registers, with a read of INT_STATUS before
  -- the last.
  unfoldable pub program_registers : ℕ → Config → B.State → ℤ × B.State
  program_registers client cfg =
      let put = write_or_err (some client) in
      put reg_pwr_mgmt_1 0x01 (
        put reg_accel_config cfg.accel_scale (
          put reg_gyro_config cfg.gyro_scale (
            put reg_config cfg.dlpf_cfg (
              put reg_smplrt_div cfg.sample_rate_div (
                put reg_fifo_en cfg.fifo_en (
                  put reg_int_pin_cfg cfg.int_pin_cfg (
                    put reg_int_enable cfg.int_enable (λ s.
                      put reg_user_ctrl cfg.user_ctrl (λ t. (mpu_ok, t))
                        (B.read_byte_data client reg_int_status s).1))))))))

  -- mpu6050_kdd_init with a client
  unfoldable pub mpu6050_kdd_init : ℕ → Config → Mpu → B.State → (ℤ × Mpu) × B.State
  mpu6050_kdd_init client cfg dev s =
      let d = record dev {
        client = some client;
        accel_scale = cfg.accel_scale;
        gyro_scale = cfg.gyro_scale;
      } in
      let r = mpu6050_kdd_reset (some client) s in
      let w = program_registers client cfg r.1 in
      if is_zero r.0
      then ((w.0, if is_zero w.0 then record d { initialized = true } else d), w.1)
      else ((mpu_err, d), r.1)
