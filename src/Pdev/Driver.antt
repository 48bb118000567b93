-- ===== src/Pdev/Driver.antt =====
-- The handlers of 08_BeagleBone_pdev/mpu6050_core.c, the same in 06_I2C_w_IRQ_MPU6050 and
-- 07_BeagleBone, over the I2C core: the start and the removal of the sensor, the two interrupts,
-- and the text for a reader. The spin locks make the updates of the shared state single steps.
use linux_device_drivers_hw.Base.{
  ℕ, Bool, true, false, not, List, [], ◌∷◌, Option, none, some, ℤ, pos, is_neg, is_pos, is_zero,
  if◌then◌else◌, pos_part, get_or, ◌==◌, Text,
}
use linux_device_drivers_hw.Mpu6050.Regs.{
  has_status, status_fifo_oflow, status_data_rdy, i2c_addr_default, reg_int_status,
}
use linux_device_drivers_hw.Base.Errno.{eio}
use linux_device_drivers_hw.GpioIrq
use linux_device_drivers_hw.GpioIrq.{Button}
use linux_device_drivers_hw.Mpu6050.Config.{default_config}
use linux_device_drivers_hw.Mpu6050.Convert.{Raw, raw_to_sample_fixed}
use linux_device_drivers_hw.Mpu6050.Driver.{SampleState, IrqReturn, irq_none, irq_handled}
use linux_device_drivers_hw.Mpu6050.Message.{dev_read_text}
use linux_device_drivers_hw.Kdd.{
  I2cCore, Mpu, mpu6050_kdd_whoami, mpu6050_kdd_init, mpu6050_kdd_reset, mpu6050_kdd_reset_fifo,
}
use linux_device_drivers_hw.Kdd.Fifo.{mpu6050_read_fifo_samples}
use linux_device_drivers_hw.Pdev.{init_mpu6050}

-- The globals of the file, and the I2C core.
pub record Globals (B : I2cCore) : Type 0 where
  pub g_mpu6050_dev : Mpu
  pub g_sample_state : SampleState
  pub g_irq_button_state : Button
  pub core : B.State

module _ (B : I2cCore) where
  -- The sensor is set up only when it has answered with its identity.
  unfoldable pub init_if_mpu : Option ℕ → ℕ → Globals B → Bool × Globals B
  init_if_mpu none client g = (false, g)
  init_if_mpu (some id) client g =
      let r = mpu6050_kdd_init B client default_config g.g_mpu6050_dev g.core in
      let g1 = record g { g_mpu6050_dev = r.0.1; core = r.1 } in
      if id == i2c_addr_default then (is_zero r.0.0, g1) else (false, g)

  -- init_mpu6050 of a client; `junk` is what stands in the variable for the identity before it is
  -- read.
  unfoldable pub init_sensor : ℕ → ℕ → Globals B → ℤ × Globals B
  unfolding init_if_mpu
  init_sensor junk client g =
      let w = mpu6050_kdd_whoami B (some client) g.core in
      let held = record g.g_mpu6050_dev { client = some client } in
      let r = init_if_mpu w.0.1 client (record g { g_mpu6050_dev = held; core = w.1 }) in
      (init_mpu6050 w.0.1 junk r.0, r.1)

  -- remove_mpu6050
  unfoldable pub remove_sensor : Globals B → ℤ × Globals B
  remove_sensor g =
      let r = mpu6050_kdd_reset B g.g_mpu6050_dev.client g.core in
      (if is_zero r.0 then pos 0 else eio, record g { core = r.1 })

  module _ (kmalloc : ℕ → Option (List ℕ)) where
    -- A sample is published if one has been read; `unread` is what the local sample held before.
    unfoldable pub publish_sample : Raw → Globals B → Globals B
    publish_sample unread g =
        let n = mpu6050_read_fifo_samples B kmalloc g.g_mpu6050_dev (unread ∷ []) 1 g.core in
        let r = get_or n.0.1 0 unread in
        let d = g.g_mpu6050_dev in
        let fx = raw_to_sample_fixed d.accel_scale d.gyro_scale r in
        let g1 = record g { core = n.1 } in
        if is_pos n.0.0
        then record g1 { g_sample_state = record { valid = true; raw = r; fixed = fx } }
        else g1

    -- What the thread does by the value of INT_STATUS.
    unfoldable pub serve_status : ℕ → Raw → Globals B → Globals B
    serve_status st unread g =
        let f = mpu6050_kdd_reset_fifo B g.g_mpu6050_dev.client g.core in
        let p = publish_sample unread g in
        if has_status status_fifo_oflow st
        then record g { core = f.1 }
        else if has_status status_data_rdy st
        then p
        else g

    unfoldable pub read_status : Option ℕ → Raw → Globals B → IrqReturn × Globals B
    read_status none unread g = (irq_none, g)
    read_status (some client) unread g =
        let r = B.read_byte_data client reg_int_status g.core in
        let g1 = record g { core = r.1 } in
        (irq_handled, if is_neg r.0 then g1 else serve_status (pos_part r.0) unread g1)

    -- mpu6050_irq_thread
    unfoldable pub mpu6050_irq_thread : Raw → Globals B → IrqReturn × Globals B
    mpu6050_irq_thread unread g =
        if not g.g_mpu6050_dev.initialized
        then (irq_none, g)
        else read_status g.g_mpu6050_dev.client unread g

  -- gpio_irq_handler: the debounce is the one of gpio_irq.c.
  unfoldable pub button_irq : ℕ → ℕ → Globals B → Globals B
  button_irq window now g = record g {
    g_irq_button_state = GpioIrq.gpio_irq_handler window now g.g_irq_button_state;
  }

  -- What dev_read hands to simple_read_from_buffer.
  unfoldable reader_text : Globals B → Text
  reader_text g = dev_read_text g.g_irq_button_state.irq_counter g.g_sample_state
