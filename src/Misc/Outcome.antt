-- ===== src/Misc/Outcome.antt =====
-- What a probe with a misc device leaves.
use mathlib.Core.Path.{subst}
use linux_device_drivers_hw.Base.{
  Bool-cases, sym, ◌∙◌, ℕ, Bool, true, false, not, ◌≡◌, ◌⊎◌, inl, inr, refl, ap, ◌&&◌, ◌||◌, Option,
  none, some, ℤ, is_pos, is_zero, arith, if◌then◌else◌, if_keeps, ◌==◌,
}
use linux_device_drivers_hw.Mpu6050.Config.{default_config}
use linux_device_drivers_hw.Kdd.{
  I2cCore, Mpu, mpu6050_kdd_whoami, mpu6050_kdd_init, program_registers, mpu6050_kdd_reset,
}
use linux_device_drivers_hw.Pdev.{init_mpu6050}
use linux_device_drivers_hw.Pdev.Driver.{Globals, init_if_mpu, init_sensor}
use linux_device_drivers_hw.Misc.{
  MiscBinding, MiscCalls, register_misc, request_button, probe_misc, remove_misc,
}

module _ (B : I2cCore) where
  -- A set-up that succeeds leaves the device initialised.
  init_marks :
      (client : ℕ) (dev : Mpu) (s : B.State)
      → is_zero (mpu6050_kdd_init B client default_config dev s).0.0 ≡ true
      → (mpu6050_kdd_init B client default_config dev s).0.1.initialized ≡ true
  unfolding mpu6050_kdd_init
  init_marks client dev s h =
      let r = mpu6050_kdd_reset B (some client) s in
      if_keeps (λ (t : (ℤ × Mpu) × B.State). is_zero t.0.0 ≡ true → t.0.1.initialized ≡ true)
        (is_zero r.0)
        (λ _ w.
          if_keeps (λ (d : Mpu). d.initialized ≡ true)
            (is_zero (program_registers B client default_config r.1).0) (λ _. refl) (λ n. cc))
        (λ _ w. cc) h

  if_mpu_marks :
      (o : Option ℕ) (client : ℕ) (g : Globals B)
      → (init_if_mpu B o client g).0 ≡ true
      → (o ≡ some 0x68) × ((init_if_mpu B o client g).1.g_mpu6050_dev.initialized ≡ true)
  unfolding init_if_mpu
  if_mpu_marks none client g h = cc
  if_mpu_marks (some id) client g h =
      if_keeps
        (λ (t : Bool × Globals B).
          t.0 ≡ true → (some id ≡ some 0x68) × (t.1.g_mpu6050_dev.initialized ≡ true))
        (id == 0x68) (λ e w. (ap some (ground arith), init_marks client g.g_mpu6050_dev g.core w))
        (λ _ w. cc) h

  -- What the sensor answers to the read of its identity.
  abbrev pub identity : ℕ → Globals B → Option ℕ
  identity client g = (mpu6050_kdd_whoami B (some client) g.core).0.1

  -- A result of init_mpu6050 that is 0: the sensor is set up, or it has not answered and the unset
  -- variable happens to be 0.
  abbrev pub Starts : ℕ → Option ℕ → Bool → Type 0
  Starts junk o initialized = ((o ≡ none) × (junk ≡ 0)) ⊎ ((o ≡ some 0x68) × (initialized ≡ true))

  code-Starts :
      (o : Option ℕ) (junk : ℕ) (ok initialized : Bool)
      → (ok ≡ true → (o ≡ some 0x68) × (initialized ≡ true))
      → is_zero (init_mpu6050 o junk ok) ≡ true
      → Starts junk o initialized
  unfolding init_mpu6050
  code-Starts none junk ok initialized h z = inl (refl, ground arith)
  code-Starts (some id) junk true initialized h z = inr (h refl)
  code-Starts (some id) junk false initialized h z = absurd (ground arith)

  init_sensor-Starts :
      (junk client : ℕ) (g : Globals B)
      → is_zero (init_sensor B junk client g).0 ≡ true
      → Starts junk (identity client g) (init_sensor B junk client g).1.g_mpu6050_dev.initialized
  unfolding init_sensor
  init_sensor-Starts junk client g z =
      let w = mpu6050_kdd_whoami B (some client) g.core in
      let held = record g.g_mpu6050_dev { client = some client } in
      let g1 = record g { g_mpu6050_dev = held; core = w.1 } in
      let r = init_if_mpu B w.0.1 client g1 in
      code-Starts w.0.1 junk r.0 r.1.g_mpu6050_dev.initialized (if_mpu_marks w.0.1 client g1) z

  abbrev pub fresh : Globals B → MiscBinding B
  fresh g = record { irq0 = false; irq1 = false; misc_registered = false; globals = g }

  -- What a probe leaves, by whether it reaches the sensor.
  abbrev Reached : MiscCalls → ℕ → Globals B → Bool → ℤ × MiscBinding B → Type 0
  Reached k client g reached r =
      (r.1.misc_registered ≡ reached)
      × (is_zero r.0 ≡ (reached && is_zero (init_sensor B k.junk client g).0))
      × (r.1.globals ≡ (if reached then (init_sensor B k.junk client g).1 else g))

  stopped :
      (k : MiscCalls) (client : ℕ) (g : Globals B) (ret : ℤ) (a b reached : Bool)
      → is_zero ret ≡ false
      → reached ≡ false
      → Reached k client g reached (ret, record (fresh g) { irq0 = a; irq1 = b })
  stopped k client g ret a b reached z e = rw e (refl, z, refl)

  register-Reached :
      (k : MiscCalls) (client : ℕ) (g : Globals B) (a b reached : Bool)
      → reached ≡ is_zero k.misc_ret
      → Reached k client g reached
          (register_misc k client (record (fresh g) { irq0 = a; irq1 = b }))
  unfolding register_misc
  register-Reached k client g a b reached e =
      if_keeps (Reached k client g reached) (not (is_zero k.misc_ret))
        (λ z. stopped k client g k.misc_ret a b reached (ground arith) (ground arith))
        (λ z. let y : reached ≡ true = ground arith in rw y (refl, refl, refl))

  button-Reached :
      (k : MiscCalls) (client : ℕ) (g : Globals B) (a reached : Bool)
      → reached ≡ ((not (is_pos k.irq1) || is_zero k.request1_ret) && is_zero k.misc_ret)
      → Reached k client g reached (request_button k client (record (fresh g) { irq0 = a }))
  unfolding request_button
  button-Reached k client g a reached e =
      if_keeps (Reached k client g reached) (is_pos k.irq1)
        (λ p.
          if_keeps (Reached k client g reached) (not (is_zero k.request1_ret))
            (λ z. stopped k client g k.request1_ret a false reached (ground arith) (ground arith))
            (λ z. register-Reached k client g a true reached (ground arith)))
        (λ n. register-Reached k client g a false reached (ground arith))

  probe-Reached :
      (k : MiscCalls) (client : ℕ) (g : Globals B)
      → let reached =
          (not (is_pos k.irq0) || is_zero k.request0_ret)
          && ((not (is_pos k.irq1) || is_zero k.request1_ret) && is_zero k.misc_ret) in
        Reached k client g reached (probe_misc k client (fresh g))
  unfolding probe_misc
  probe-Reached k client g =
      let reached =
        (not (is_pos k.irq0) || is_zero k.request0_ret)
        && ((not (is_pos k.irq1) || is_zero k.request1_ret) && is_zero k.misc_ret) in
      if_keeps (Reached k client g reached) (is_pos k.irq0)
        (λ p.
          if_keeps (Reached k client g reached) (not (is_zero k.request0_ret))
            (λ z.
              stopped k client g k.request0_ret false false reached (ground arith) (ground arith))
            (λ z. button-Reached k client g true reached (ground arith)))
        (λ n. button-Reached k client g false reached (ground arith))

  ends :
      (k : MiscCalls) (client : ℕ) (g : Globals B) (reached : Bool) (r : ℤ × MiscBinding B)
      → Reached k client g reached r
      → (is_zero r.0 ≡ false)
        ⊎ Starts k.junk (identity client g) r.1.globals.g_mpu6050_dev.initialized
  ends k client g false r h = inl (h.1)
  ends k client g true r h = elim (Bool-cases (is_zero r.0)) [
    | inr z ↦ inl z
    | inl z ↦ inr (
        subst (λ (t : Globals B). Starts k.junk (identity client g) t.g_mpu6050_dev.initialized)
          (sym h.2) (init_sensor-Starts k.junk client g (sym h.1 ∙ z)))
  ]

  -- A probe of a device on which nothing is requested or registered: it registers the misc device
  -- exactly when no interrupt that there is is refused and misc_register succeeds, and it returns 0
  -- exactly when moreover init_mpu6050 does; so a probe that fails at the sensor leaves the misc
  -- device registered. When it returns 0, the sensor has answered with 0x68 and the device is
  -- marked initialised, or it has not answered at all and the unset variable happens to be 0. A
  -- removal deregisters the misc device.
  pub probe_misc_outcome :
      (k : MiscCalls) (client : ℕ) (g : Globals B)
      → let r = probe_misc k client (fresh g) in
        let reached =
          (not (is_pos k.irq0) || is_zero k.request0_ret)
          && ((not (is_pos k.irq1) || is_zero k.request1_ret) && is_zero k.misc_ret) in
        (r.1.misc_registered ≡ reached)
        × (is_zero r.0 ≡ (reached && is_zero (init_sensor B k.junk client g).0))
        × ((is_zero r.0 ≡ false)
            ⊎ Starts k.junk (identity client g) r.1.globals.g_mpu6050_dev.initialized)
        × ((remove_misc r.1).misc_registered ≡ false)
  unfolding remove_misc
  probe_misc_outcome k client g =
      let h = probe-Reached k client g in
      (h.0, h.1, ends k client g _ (probe_misc k client (fresh g)) h, refl)
