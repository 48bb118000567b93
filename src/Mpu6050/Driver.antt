-- ===== src/Mpu6050/Driver.antt =====
-- The interrupt thread of mpu6050_core.c and the state that it shares with the readers, and the
-- start of the sensor. The spin lock around the published sample makes its update one step.
pub mod Unread
pub mod Published
use linux_device_drivers_hw.Base.{
  ℕ, ◌+◌, ◌%◌, ◌^◌, Bool, true, false, not, ◌≡◌, List, [], ◌∷◌, Option, none, some, ℤ, pos, is_neg,
  is_pos, is_zero, if◌then◌else◌, get_or, ◌==◌,
}
use linux_device_drivers_hw.Mpu6050.Regs.{
  has_status, status_fifo_oflow, status_data_rdy, i2c_addr_default, reg_int_status, reg_who_am_i,
}
use linux_device_drivers_hw.Base.Errno.{eio, enodev}
use linux_device_drivers_hw.Mpu6050.Config.{default_config}
use linux_device_drivers_hw.Mpu6050.Convert.{Raw, SampleFixed, raw_to_sample_fixed}
use linux_device_drivers_hw.Mpu6050.Bus.{RegBus}
use linux_device_drivers_hw.Mpu6050.Device.{Dev, kdd_read_byte, reset_fifo, reset, init}
use linux_device_drivers_hw.Mpu6050.Fifo.{read_fifo_samples}

pub data IrqReturn : Type 0 where
  irq_none : IrqReturn
  irq_handled : IrqReturn

-- g_sample_state
pub record SampleState : Type 0 where
  pub valid : Bool
  pub raw : Raw
  pub fixed : SampleFixed

-- The globals of the file, and the bus.
pub record Core (B : RegBus) : Type 0 where
  pub dev : Dev
  pub sample : SampleState
  pub irq_counter : ℕ
  pub bus : B.State

-- init_mpu6050: a value that was not read compares as one that is not the identity.
unfoldable pub init_mpu6050 : (B : RegBus) → Dev → B.State → (ℤ × Dev) × B.State
init_mpu6050 B dev s =
    let r = kdd_read_byte B dev reg_who_am_i s in
    let is_mpu : Bool = elim r.0.1 [ some v ↦ v == i2c_addr_default | none ↦ false ] in
    let w = init B dev default_config r.1 in
    if not (is_zero r.0.0)
    then ((eio, dev), r.1)
    else if not is_mpu
    then ((enodev, dev), r.1)
    else if is_zero w.0.0
    then ((pos 0, w.0.1), w.1)
    else ((eio, w.0.1), w.1)

-- remove_mpu6050
unfoldable pub remove_mpu6050 : (B : RegBus) → Dev → B.State → ℤ × B.State
remove_mpu6050 B dev s = let r = reset B dev s in if is_zero r.0 then (pos 0, r.1) else (eio, r.1)

module _ (B : RegBus) (kmalloc : ℕ → Option (List ℕ)) where
  -- The sample is published if one has been read.
  unfoldable pub publish : (ℤ × List Raw) × B.State → Raw → Core B → Core B
  publish n unread c =
      let c1 = record c { bus = n.1 } in
      let r = get_or n.0.1 0 unread in
      let fx = raw_to_sample_fixed c.dev.accel_scale c.dev.gyro_scale r in
      if is_pos n.0.0
      then record c1 { sample = record { valid = true; raw = r; fixed = fx } }
      else c1

  -- What the thread does by the value of INT_STATUS: an overflow comes before the data. `unread` is
  -- what the local sample holds before it is read.
  unfoldable pub on_status : ℕ → Raw → Core B → Core B
  on_status st unread c =
      let n = read_fifo_samples B kmalloc c.dev (unread ∷ []) 1 c.bus in
      if has_status status_fifo_oflow st
      then record c { bus = (reset_fifo B c.dev c.bus).1 }
      else if has_status status_data_rdy st
      then publish n unread c
      else c

  unfoldable pub on_read : (ℤ × Option ℕ) → Raw → Core B → Core B
  on_read (ret, none) unread c = c
  on_read (ret, some st) unread c = on_status st unread c

  -- mpu6050_irq_thread
  unfoldable pub irq_thread : Raw → Core B → IrqReturn × Core B
  irq_thread unread c =
      let r = kdd_read_byte B c.dev reg_int_status c.bus in
      let c1 = record c { irq_counter = (c.irq_counter + 1) % 2 ^ 32; bus = r.1 } in
      if not c.dev.initialized
      then (irq_none, c)
      else if is_neg r.0.0
      then (irq_handled, c1)
      else (irq_handled, on_read r.0 unread c1)
