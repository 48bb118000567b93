-- ===== src/Pdev/Binding.antt =====
-- The life of the driver of 08_BeagleBone_pdev/mpu6050_core.c as a step relation: devices are bound
-- and removed one after the other, and the interrupts come at any moment between their request, at
-- the begin of a probe, and the release by the driver core behind a failed probe or a removal.
use linux_device_drivers_hw.Base.{
  ℕ, Bool, true, false, ◌≡◌, List, Option, none, is_zero, if◌then◌else◌,
}
use linux_device_drivers_hw.Mpu6050.Convert.{Raw}
use linux_device_drivers_hw.Kdd.{I2cCore}
use linux_device_drivers_hw.Pdev.Driver.{
  Globals, init_sensor, remove_sensor, mpu6050_irq_thread, button_irq,
}

-- Where i2c_device_probe and i2c_device_remove stand, with the client that they are called for.
pub data Stage : Type 0 where
  unbound : Stage
  probing : ℕ → Stage
  bound : ℕ → Stage
  leaving : ℕ → Stage

-- The interrupts can come.
abbrev is_listening : Stage → Bool
is_listening unbound = false
is_listening (probing c) = true
is_listening (bound c) = true
is_listening (leaving c) = true

pub record Driver (B : I2cCore) : Type 0 where
  pub stage : Stage
  pub globals : Globals B

module _ {B : I2cCore} where
  -- The call of init_mpu6050 in i2c_device_probe: its result decides whether the device is bound.
  unfoldable pub starts_sensor : ℕ → ℕ → Driver B → Driver B
  starts_sensor junk client d =
      let r = init_sensor B junk client d.globals in
      record { stage = if is_zero r.0 then bound client else leaving client; globals = r.1 }

  -- i2c_device_remove up to the release of what is managed.
  unfoldable pub removes_sensor : ℕ → Driver B → Driver B
  removes_sensor client d = record {
    stage = leaving client;
    globals = (remove_sensor B d.globals).1;
  }

  module _ (kmalloc : ℕ → Option (List ℕ)) where
    pub data Step : Driver B → Driver B → Type 0 where
      begins :
          {d : Driver B} (client : ℕ)
          → d.stage ≡ unbound
          → Step d (record d { stage = probing client })
      refused :
          {d : Driver B} (client : ℕ)
          → d.stage ≡ probing client
          → Step d (record d { stage = leaving client })
      starts :
          {d : Driver B} (junk client : ℕ)
          → d.stage ≡ probing client
          → Step d (starts_sensor junk client d)
      removes :
          {d : Driver B} (client : ℕ) → d.stage ≡ bound client → Step d (removes_sensor client d)
      released :
          {d : Driver B} (client : ℕ)
          → d.stage ≡ leaving client
          → Step d (record d { stage = unbound })
      sensor_fires :
          {d : Driver B} (unread : Raw)
          → is_listening d.stage ≡ true
          → Step d (record d { globals = (mpu6050_irq_thread B kmalloc unread d.globals).1 })
      button_fires :
          {d : Driver B} (window now : ℕ)
          → is_listening d.stage ≡ true
          → Step d (record d { globals = button_irq B window now d.globals })

    pub data Run (d : Driver B) : Driver B → Type 0 where
      stay : Run d d
      then_step : {e f : Driver B} → Run d e → Step e f → Run d f

  -- The module as it is loaded.
  abbrev pub IsFresh : Driver B → Type 0
  IsFresh d =
      (d.stage ≡ unbound)
      × (d.globals.g_mpu6050_dev.client ≡ none)
      × (d.globals.g_mpu6050_dev.initialized ≡ false)
