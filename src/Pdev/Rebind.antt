-- ===== src/Pdev/Rebind.antt =====
-- The client of an interrupt while a device is bound, and while the next one is probed.
use mathlib.Core.Path.{subst}
use linux_device_drivers_hw.Base.{
  ℕ, true, not, ◌≡◌, refl, sym, ◌∙◌, List, [], ◌∷◌, ◌++◌, Option, some, arith, if_keeps, replicate,
  append_assoc,
}
use linux_device_drivers_hw.Mpu6050.Convert.{Raw}
use linux_device_drivers_hw.Mpu6050.Driver.{IrqReturn}
use linux_device_drivers_hw.Kdd.{I2cCore}
use linux_device_drivers_hw.Kdd.Through.{noting}
use linux_device_drivers_hw.Pdev.Driver.{Globals, remove_sensor, read_status, mpu6050_irq_thread}
use linux_device_drivers_hw.Pdev.Binding.{
  unbound, probing, bound, Driver, removes_sensor, begins, removes, released, Run, then_step,
  IsFresh,
}
use linux_device_drivers_hw.Pdev.Through.{
  Reaches, status-Reaches, irq-Reaches, remove-Reaches, Run-IsHeld, Fresh-IsHeld,
}

module _ (B : I2cCore) where
  abbrev M : I2cCore
  M = noting B

  -- In a run from the module as it is loaded, over any number of devices and with interrupts at any
  -- moment: while a device is bound, the client in the global state is that of this device, and
  -- what the interrupt of the sensor and the removal access on the bus they access through it
  -- alone.
  pub bound_accesses :
      (kmalloc : ℕ → Option (List ℕ)) {d e : Driver M} (c : ℕ) (unread : Raw)
      → IsFresh d
      → Run kmalloc d e
      → e.stage ≡ bound c
      → (e.globals.g_mpu6050_dev.client ≡ some c)
        × Reaches B c e.globals (mpu6050_irq_thread M kmalloc unread e.globals).1
        × Reaches B c e.globals (remove_sensor M e.globals).1
  bound_accesses kmalloc {d} {e} c unread h r b =
      let held = Run-IsHeld B kmalloc (Fresh-IsHeld B d h) r c b in
      (
        held,
        irq-Reaches B kmalloc c unread e.globals held,
        remove-Reaches B kmalloc c e.globals held,
      )

  -- The accesses of the interrupt of an initialised device.
  initialised_irq :
      (kmalloc : ℕ → Option (List ℕ)) (c : ℕ) (unread : Raw) (g : Globals M)
      → g.g_mpu6050_dev.client ≡ some c
      → g.g_mpu6050_dev.initialized ≡ true
      → (k : ℕ) × ((mpu6050_irq_thread M kmalloc unread g).1.core.1
          ≡ g.core.1 ++ (c ∷ replicate k c))
  unfolding mpu6050_irq_thread
  initialised_irq kmalloc c unread g e i =
      let (k, f) = status-Reaches B kmalloc c unread g e in
      (
        k,
        if_keeps (λ (t : IrqReturn × Globals M). t.1.core.1 ≡ g.core.1 ++ (c ∷ replicate k c))
            (not g.g_mpu6050_dev.initialized) (λ z. absurd (ground arith))
            (λ _.
              subst
                (λ o. (read_status M kmalloc o unread g).1.core.1 ≡ g.core.1 ++ (c ∷ replicate k c))
                (sym e) (f ∙ append_assoc g.core.1 (c ∷ []) (replicate k c))),
      )

  -- When a device with client c is bound and initialised in a run from the module as it is loaded,
  -- the run can go on with its removal and the probe of any other client, up to a state in which an
  -- interrupt of the new device is served before its init_mpu6050: and this accesses the bus at
  -- least once, and only through c.
  pub stale_client :
      (kmalloc : ℕ → Option (List ℕ)) {d e : Driver M} (c other : ℕ) (unread : Raw)
      → IsFresh d
      → Run kmalloc d e
      → e.stage ≡ bound c
      → e.globals.g_mpu6050_dev.initialized ≡ true
      → (f : Driver M) × Run kmalloc d f
        × (f.stage ≡ probing other)
        × ((k : ℕ) × ((mpu6050_irq_thread M kmalloc unread f.globals).1.core.1
              ≡ f.globals.core.1 ++ (c ∷ replicate k c)))
  unfolding removes_sensor remove_sensor
  stale_client kmalloc {d} {e} c other unread h r b i =
      let held = Run-IsHeld B kmalloc (Fresh-IsHeld B d h) r c b in
      let gone = removes_sensor c e in
      let idle : Driver M = record gone { stage = unbound } in
      let f : Driver M = record gone { stage = probing other } in
      (
        f,
        then_step {e = idle} (then_step {e = gone} (then_step r (removes c b)) (released c refl))
            (begins other refl),
        refl,
        initialised_irq kmalloc c unread f.globals held i,
      )
