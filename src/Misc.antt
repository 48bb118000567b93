-- ===== src/Misc.antt =====
-- 07_BeagleBone/mpu6050_core.c, the same in 06_I2C_w_IRQ_MPU6050: the probe and the removal of the
-- sensor with a misc device for its readers. What the kernel's functions return is a parameter; the
-- interrupts are managed, so that the driver core releases them.
pub mod Outcome
use linux_device_drivers_hw.Base.{ℕ, Bool, true, false, not, ◌≡◌, ℤ, is_pos, is_zero, if◌then◌else◌}
use linux_device_drivers_hw.Kdd.{I2cCore}
use linux_device_drivers_hw.Pdev.Driver.{Globals, init_sensor, remove_sensor}

-- What the driver has requested and registered, and its globals.
pub record MiscBinding (B : I2cCore) : Type 0 where
  pub irq0 : Bool
  pub irq1 : Bool
  pub misc_registered : Bool
  pub globals : Globals B

-- What of_irq_get, the requests of the interrupts and misc_register return; `junk` is what stands
-- in the variable of init_mpu6050 that is set only when the identity has been read.
pub record MiscCalls : Type 0 where
  pub irq0 : ℤ
  pub request0_ret : ℤ
  pub irq1 : ℤ
  pub request1_ret : ℤ
  pub misc_ret : ℤ
  pub junk : ℕ

module _ {B : I2cCore} where
  -- The misc device, and then the sensor.
  unfoldable pub register_misc : MiscCalls → ℕ → MiscBinding B → ℤ × MiscBinding B
  register_misc k client d =
      let r = init_sensor B k.junk client d.globals in
      if not (is_zero k.misc_ret)
      then (k.misc_ret, d)
      else (r.0, record d { misc_registered = true; globals = r.1 })

  unfoldable pub request_button : MiscCalls → ℕ → MiscBinding B → ℤ × MiscBinding B
  unfolding register_misc
  request_button k client d =
      if is_pos k.irq1
      then (if not (is_zero k.request1_ret)
          then (k.request1_ret, d)
          else register_misc k client (record d { irq1 = true }))
      else register_misc k client d

  -- i2c_device_probe
  unfoldable pub probe_misc : MiscCalls → ℕ → MiscBinding B → ℤ × MiscBinding B
  unfolding request_button
  probe_misc k client d =
      if is_pos k.irq0
      then (if not (is_zero k.request0_ret)
          then (k.request0_ret, d)
          else request_button k client (record d { irq0 = true }))
      else request_button k client d

  -- i2c_device_remove; the result of remove_mpu6050 is ignored.
  unfoldable pub remove_misc : MiscBinding B → MiscBinding B
  remove_misc d = record d { globals = (remove_sensor B d.globals).1; misc_registered = false }
