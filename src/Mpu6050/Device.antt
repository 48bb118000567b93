-- ===== src/Mpu6050/Device.antt =====
-- The configuration of the sensor: write_reg, reset_fifo, reset, init and read_byte of
-- mpu6050_kdd_primitives.c. The pointer to the device is the address of a static object, so the
-- tests for NULL do not arise; the scheduled pauses have no effect on the state.
pub mod Program
use linux_device_drivers_hw.Base.{
  ℕ, ◌%◌, ◌^◌, Bool, true, false, not, ◌≡◌, refl, List, [], ◌∷◌, ◌++◌, Option, none, some, ℤ, pos,
  negsuc, arith, is_zero, is_neg, if◌then◌else◌, pos_part, if_keeps, append_assoc, append-nil,
}
use linux_device_drivers_hw.Mpu6050.Regs.{
  reg_accel_config, reg_config, reg_fifo_en, reg_gyro_config, reg_int_enable, reg_int_pin_cfg,
  reg_int_status, reg_pwr_mgmt_1, reg_signal_path_reset, reg_smplrt_div, reg_user_ctrl,
  signal_path_reset_all, user_ctrl_value, userctrl_fifo_en, userctrl_fifo_reset,
}
use linux_device_drivers_hw.Mpu6050.Config.{Config}
use linux_device_drivers_hw.Mpu6050.Bus.{RegBus}

-- mpu6050_t
pub record Dev : Type 0 where
  pub i2c_addr : ℕ
  pub accel_scale : ℕ
  pub gyro_scale : ℕ
  pub initialized : Bool

-- mpu6050_status_t
abbrev pub mpu_ok : ℤ
mpu_ok = pos 0

abbrev pub mpu_err : ℤ
mpu_err = negsuc 0

abbrev pub not_initialized : ℤ
not_initialized = negsuc 2

module _ (B : RegBus) where
  -- mpu6050_write_reg
  unfoldable pub write_reg : Dev → ℕ → ℕ → B.State → ℤ × B.State
  write_reg dev reg val s =
      let r = B.write dev.i2c_addr (reg % 256) (val % 256) s in
      (if is_neg r.0 then r.0 else mpu_ok, r.1)

  -- `if (write_reg(..) != MPU6050_OK) return MPU6050_ERR;` and what follows it
  abbrev pub write_then : Dev → ℕ → ℕ → (B.State → ℤ × B.State) → B.State → ℤ × B.State
  write_then dev reg val rest s =
      let r = write_reg dev reg val s in
      let after = rest r.1 in if is_zero r.0 then after else (mpu_err, r.1)

  -- mpu6050_kdd_reset_fifo
  unfoldable pub reset_fifo : Dev → B.State → ℤ × B.State
  reset_fifo dev = write_then dev reg_user_ctrl 0 (
      write_then dev reg_user_ctrl (user_ctrl_value userctrl_fifo_reset)
        (write_then dev reg_user_ctrl (user_ctrl_value userctrl_fifo_en) (λ s. (mpu_ok, s))))

  -- mpu6050_kdd_reset: the result of the reset of the FIFO is not looked at.
  unfoldable pub reset : Dev → B.State → ℤ × B.State
  reset dev s =
      write_then dev reg_pwr_mgmt_1 0x80
        (write_then dev reg_signal_path_reset signal_path_reset_all (λ s. (mpu_ok, s)))
        (reset_fifo dev s).1

  -- mpu6050_kdd_read_byte: the value is stored only on success.
  unfoldable pub kdd_read_byte : Dev → ℕ → B.State → (ℤ × Option ℕ) × B.State
  kdd_read_byte dev reg s =
      let r = B.read dev.i2c_addr reg s in
      if is_neg r.0 then ((mpu_err, none), r.1) else ((mpu_ok, some (pos_part r.0 % 256)), r.1)

  -- The registers that mpu6050_kdd_init writes after the reset, up to the read of INT_STATUS.
  unfoldable pub configure : Dev → Config → (B.State → ℤ × B.State) → B.State → ℤ × B.State
  configure dev cfg rest = write_then dev reg_pwr_mgmt_1 0x01 (
      write_then dev reg_accel_config dev.accel_scale (
        write_then dev reg_gyro_config dev.gyro_scale (
          write_then dev reg_config cfg.dlpf_cfg (
            write_then dev reg_smplrt_div cfg.sample_rate_div (
              write_then dev reg_fifo_en cfg.fifo_en (
                write_then dev reg_int_pin_cfg cfg.int_pin_cfg
                  (write_then dev reg_int_enable cfg.int_enable rest)))))))

  -- mpu6050_kdd_init
  unfoldable pub init : Dev → Config → B.State → (ℤ × Dev) × B.State
  init dev cfg s =
      let d = record dev { accel_scale = cfg.accel_scale; gyro_scale = cfg.gyro_scale } in
      let r = reset d s in
      let w =
        configure d cfg
          (λ t.
            write_then d reg_user_ctrl cfg.user_ctrl (λ u. (mpu_ok, u))
              (B.read d.i2c_addr reg_int_status t).1)
          r.1 in
      if is_zero r.0
      then ((w.0, if is_zero w.0 then record d { initialized = true } else d), w.1)
      else ((mpu_err, d), r.1)
