-- ===== src/Pdev/Through.antt =====
-- Through which client the driver reaches the bus, over its life.
use mathlib.Core.Path.{subst}
use linux_device_drivers_hw.Base.{
  ℕ, Bool, true, false, not, ◌≡◌, refl, sym, ap, ◌∙◌, List, [], ◌∷◌, Option, none, some, ℤ, is_neg,
  is_pos, is_zero, if_keeps, if◌then◌else◌, ◌==◌, test_bit, pos_part,
}
use linux_device_drivers_hw.Mpu6050.Config.{Config, default_config}
use linux_device_drivers_hw.Mpu6050.Convert.{Raw}
use linux_device_drivers_hw.Mpu6050.Driver.{IrqReturn}
use linux_device_drivers_hw.Kdd.{
  I2cCore, Mpu, mpu6050_kdd_whoami, mpu6050_kdd_reset, program_registers, mpu6050_kdd_init,
}
use linux_device_drivers_hw.Kdd.Fifo.{mpu6050_read_fifo_samples}
use linux_device_drivers_hw.Kdd.Through.{
  noting, Through, still, follow, once, reset_fifo-Keeps, reset-Keeps, samples-Keeps,
}
use linux_device_drivers_hw.Pdev.Driver.{
  Globals, init_if_mpu, init_sensor, remove_sensor, publish_sample, serve_status, read_status,
  mpu6050_irq_thread, button_irq,
}
use linux_device_drivers_hw.Pdev.Binding.{
  bound, leaving, Driver, starts_sensor, removes_sensor, Step, begins, refused, starts, removes,
  released, sensor_fires, button_fires, Run, stay, then_step, IsFresh,
}

module _ (B : I2cCore) where
  abbrev pub N : I2cCore
  N = noting B

  -- The accesses of a handler go through one client.
  abbrev pub Reaches : ℕ → Globals N → Globals N → Type 0
  Reaches c g h = Through c g.core h.core

  module _ (kmalloc : ℕ → Option (List ℕ)) (c : ℕ) where
    publish-Reaches :
        (unread : Raw) (g : Globals N)
        → g.g_mpu6050_dev.client ≡ some c
        → Reaches c g (publish_sample N kmalloc unread g)
    unfolding publish_sample
    publish-Reaches unread g e =
        let n = mpu6050_read_fifo_samples N kmalloc g.g_mpu6050_dev (unread ∷ []) 1 g.core in
        let h = samples-Keeps B c kmalloc g.g_mpu6050_dev e (unread ∷ []) 1 g.core in
        if_keeps (Reaches c g) (is_pos n.0.0) (λ _. h) (λ _. h)

    serve-Reaches :
        (st : ℕ) (unread : Raw) (g : Globals N)
        → g.g_mpu6050_dev.client ≡ some c
        → Reaches c g (serve_status N kmalloc st unread g)
    unfolding serve_status
    serve-Reaches st unread g e =
        if_keeps (Reaches c g) (test_bit st 4) (λ _. rw e (reset_fifo-Keeps B c g.core))
          (λ _.
            if_keeps (Reaches c g) (test_bit st 0) (λ _. publish-Reaches unread g e)
              (λ _. still B c g.core))

    -- The read of INT_STATUS, and what follows it.
    pub status-Reaches :
        (unread : Raw) (g : Globals N)
        → g.g_mpu6050_dev.client ≡ some c
        → let r = N.read_byte_data c 0x3a g.core in
          Through c r.1 (read_status N kmalloc (some c) unread g).1.core
    unfolding read_status
    status-Reaches unread g e =
        let r = N.read_byte_data c 0x3a g.core in
        let g1 = record g { core = r.1 } in
        if_keeps (λ (t : Globals N). Through c r.1 t.core) (is_neg r.0) (λ _. still B c r.1)
          (λ _. serve-Reaches (pos_part r.0) unread g1 e)

    pub irq-Reaches :
        (unread : Raw) (g : Globals N)
        → g.g_mpu6050_dev.client ≡ some c
        → Reaches c g (mpu6050_irq_thread N kmalloc unread g).1
    unfolding mpu6050_irq_thread
    irq-Reaches unread g e =
        let r = N.read_byte_data c 0x3a g.core in
        if_keeps (λ (t : IrqReturn × Globals N). Reaches c g t.1) (not g.g_mpu6050_dev.initialized)
          (λ _. still B c g.core)
          (λ _.
            subst (λ o. Reaches c g (read_status N kmalloc o unread g).1) (sym e)
              (follow B c g.core r.1 (read_status N kmalloc (some c) unread g).1.core
                (once B c g.core r.1 refl) (status-Reaches unread g e)))

    pub remove-Reaches :
        (g : Globals N) → g.g_mpu6050_dev.client ≡ some c → Reaches c g (remove_sensor N g).1
    unfolding remove_sensor
    remove-Reaches g e = rw e (reset-Keeps B c g.core)

  -- What stays while a device is bound: its client is the driver's.
  abbrev IsHeld : Driver N → Type 0
  IsHeld d = (c : ℕ) → d.stage ≡ bound c → d.globals.g_mpu6050_dev.client ≡ some c

  -- What a handler leaves as it is.
  abbrev SameDev : Globals N → Globals N → Type 0
  SameDev g h = h.g_mpu6050_dev ≡ g.g_mpu6050_dev

  module _ (kmalloc : ℕ → Option (List ℕ)) where
    serve-SameDev :
        (st : ℕ) (unread : Raw) (g : Globals N) → SameDev g (serve_status N kmalloc st unread g)
    unfolding serve_status publish_sample
    serve-SameDev st unread g =
        let n = mpu6050_read_fifo_samples N kmalloc g.g_mpu6050_dev (unread ∷ []) 1 g.core in
        if_keeps (SameDev g) (test_bit st 4) (λ _. refl)
          (λ _.
            if_keeps (SameDev g) (test_bit st 0)
              (λ _. if_keeps (SameDev g) (is_pos n.0.0) (λ _. refl) (λ _. refl)) (λ _. refl))

    status-SameDev :
        (o : Option ℕ) (unread : Raw) (g : Globals N)
        → SameDev g (read_status N kmalloc o unread g).1
    unfolding read_status
    status-SameDev none unread g = refl
    status-SameDev (some client) unread g =
        let r = N.read_byte_data client 0x3a g.core in
        if_keeps (SameDev g) (is_neg r.0) (λ _. refl)
          (λ _. serve-SameDev (pos_part r.0) unread (record g { core = r.1 }))

    irq-SameDev :
        (unread : Raw) (g : Globals N) → SameDev g (mpu6050_irq_thread N kmalloc unread g).1
    unfolding mpu6050_irq_thread
    irq-SameDev unread g =
        if_keeps (λ (t : IrqReturn × Globals N). SameDev g t.1) (not g.g_mpu6050_dev.initialized)
          (λ _. refl) (λ _. status-SameDev g.g_mpu6050_dev.client unread g)

  init-client :
      (client : ℕ) (cfg : Config) (dev : Mpu) (s : N.State)
      → (mpu6050_kdd_init N client cfg dev s).0.1.client ≡ some client
  unfolding mpu6050_kdd_init
  init-client client cfg dev s =
      let w = program_registers N client cfg (mpu6050_kdd_reset N (some client) s).1 in
      if_keeps (λ (t : (ℤ × Mpu) × N.State). t.0.1.client ≡ some client)
        (is_zero (mpu6050_kdd_reset N (some client) s).0)
        (λ _. if_keeps (λ (d : Mpu). d.client ≡ some client) (is_zero w.0) (λ _. refl) (λ _. refl))
        (λ _. refl)

  if_mpu-client :
      (o : Option ℕ) (client : ℕ) (g : Globals N)
      → g.g_mpu6050_dev.client ≡ some client
      → (init_if_mpu N o client g).1.g_mpu6050_dev.client ≡ some client
  unfolding init_if_mpu
  if_mpu-client none client g e = e
  if_mpu-client (some id) client g e =
      if_keeps (λ (t : Bool × Globals N). t.1.g_mpu6050_dev.client ≡ some client) (id == 0x68)
        (λ _. init-client client default_config g.g_mpu6050_dev g.core) (λ _. e)

  init_sensor-client :
      (junk client : ℕ) (g : Globals N)
      → (init_sensor N junk client g).1.g_mpu6050_dev.client ≡ some client
  unfolding init_sensor
  init_sensor-client junk client g =
      let w = mpu6050_kdd_whoami N (some client) g.core in
      if_mpu-client w.0.1 client
        (record g { g_mpu6050_dev = record g.g_mpu6050_dev { client = some client }; core = w.1 })
        refl

  settled : (a c : ℕ) (z : Bool) → (if z then bound a else leaving a) ≡ bound c → a ≡ c
  settled a c true e = cc
  settled a c false e = cc

  module _ (kmalloc : ℕ → Option (List ℕ)) where
    Step-IsHeld : {d e : Driver N} → Step kmalloc d e → IsHeld d → IsHeld e
    unfolding starts_sensor removes_sensor button_irq
    Step-IsHeld (begins client u) h c e = cc
    Step-IsHeld (refused client u) h c e = cc
    Step-IsHeld (starts {d} junk client u) h c e =
        init_sensor-client junk client d.globals ∙ ap some (settled client c _ e)
    Step-IsHeld (removes client u) h c e = cc
    Step-IsHeld (released client u) h c e = cc
    Step-IsHeld (sensor_fires {d} unread l) h c e =
        ap (λ m. m.client) (irq-SameDev kmalloc unread d.globals) ∙ h c e
    Step-IsHeld (button_fires window now l) h c e = h c e

    pub Run-IsHeld : {d e : Driver N} → IsHeld d → Run kmalloc d e → IsHeld e
    Run-IsHeld h stay = h
    Run-IsHeld h (then_step r st) = Step-IsHeld st (Run-IsHeld h r)

  pub Fresh-IsHeld : (d : Driver N) → IsFresh d → IsHeld d
  Fresh-IsHeld d h c e = cc (h.0)
