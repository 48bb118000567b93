-- ===== src/Pdev/Outcome.antt =====
-- What a probe on the I2C bus leaves.
use linux_device_drivers_hw.Base.{
  Bool, true, false, not, ◌≡◌, ◌⊎◌, inl, refl, ◌&&◌, ◌||◌, none, some, ℤ, pos, is_pos, is_zero,
  arith, if◌then◌else◌, if_keeps, ◌==◌,
}
use linux_device_drivers_hw.Pdev.{
  Node, NodeCalls, mpu_platform_probe, mpu_platform_remove, I2cDevice, I2cCalls, init_mpu6050,
  register_pdev, unregister_pdev, probe_device, request_irq1, i2c_device_probe, i2c_device_remove,
}

abbrev no_node : Node
no_node = record { chrdev = false; cdev = false; class = false; device = false; drvdata = false }

abbrev full_node : Node
full_node = record { chrdev = true; cdev = true; class = true; device = true; drvdata = true }

-- The probe of the platform device registers everything or nothing.
node_outcome :
    (k : NodeCalls)
    → ((is_zero (mpu_platform_probe k no_node).0 ≡ true)
        × ((mpu_platform_probe k no_node).1 ≡ full_node))
      ⊎ ((is_zero (mpu_platform_probe k no_node).0 ≡ false)
          × ((mpu_platform_probe k no_node).1 ≡ no_node))
unfolding mpu_platform_probe
node_outcome k = ground arith

-- The sensor answers with its identity and can be set up.
abbrev pub answers : I2cCalls → Bool
answers k = elim k.whoami [ none ↦ k.junk == 0 | some id ↦ id == 0x68 && k.init_ok ]

abbrev pub unbound : I2cDevice
unbound = record { node = no_node; pdev = false; clientdata = false; irq0 = false; irq1 = false }

abbrev with_irqs : Bool → Bool → I2cDevice
with_irqs a b = record unbound { irq0 = a; irq1 = b }

-- What a probe leaves, by whether it succeeds, and a removal after it.
abbrev pub Leaves : Bool → ℤ × I2cDevice → Type 0
Leaves ok r =
    (is_zero r.0 ≡ ok)
    × (r.1.pdev ≡ ok)
    × (r.1.clientdata ≡ ok)
    × ((r.1.node ≡ no_node) ⊎ ((ok ≡ true) × (r.1.node ≡ full_node)))
    × ((i2c_device_remove r.1).node ≡ no_node)
    × ((i2c_device_remove r.1).pdev ≡ false)

init_answers : (k : I2cCalls) → is_zero (init_mpu6050 k.whoami k.junk k.init_ok) ≡ answers k
unfolding init_mpu6050
init_answers k = ground arith

-- A failure in front of the platform device.
failed_early :
    (ret : ℤ) (a b ok : Bool) → is_zero ret ≡ false → ok ≡ false → Leaves ok (ret, with_irqs a b)
unfolding i2c_device_remove
failed_early ret a b ok h e = rw e (h, refl, refl, inl refl, refl, refl)

abbrev with_pdev : Node → Bool → Bool → I2cDevice
with_pdev n a b = record { node = n; pdev = true; clientdata = true; irq0 = a; irq1 = b }

-- The platform device is registered and the sensor is set up, or it is not and all goes back.
registered :
    (n : Node) (a b : Bool) (ret : ℤ) (ok : Bool)
    → is_zero ret ≡ ok
    → (n ≡ full_node) ⊎ (n ≡ no_node)
    → let d = with_pdev n a b in
      Leaves ok (
        if not (is_zero ret)
        then (ret, record (unregister_pdev d) { clientdata = false })
        else (pos 0, d))
unfolding i2c_device_remove unregister_pdev mpu_platform_remove
registered n a b ret true h e = rw h (ground arith)
registered n a b ret false h e = rw h (ground arith)

probe_device-Leaves :
    (k : I2cCalls) (a b ok : Bool)
    → ok ≡ (is_zero k.register_ret && answers k)
    → Leaves ok (probe_device k (with_irqs a b))
unfolding probe_device register_pdev
probe_device-Leaves k a b ok e =
    if_keeps (Leaves ok) (not (is_zero k.register_ret))
      (λ t. failed_early k.register_ret a b ok (ground arith) (ground arith))
      (λ f.
        registered (mpu_platform_probe k.node no_node).1 a b
          (init_mpu6050 k.whoami k.junk k.init_ok) ok (ground (arith, init_answers k))
          (ground (arith, node_outcome k.node)))

request_irq1-Leaves :
    (k : I2cCalls) (a ok : Bool)
    → ok
      ≡ ((not (is_pos k.irq1) || is_zero k.request1_ret) && (is_zero k.register_ret && answers k))
    → Leaves ok (request_irq1 k (with_irqs a false))
unfolding request_irq1
request_irq1-Leaves k a ok e =
    if_keeps (Leaves ok) (is_pos k.irq1)
      (λ p.
        if_keeps (Leaves ok) (not (is_zero k.request1_ret))
          (λ t. failed_early k.request1_ret a false ok (ground arith) (ground arith))
          (λ f. probe_device-Leaves k a true ok (ground arith)))
      (λ n. probe_device-Leaves k a false ok (ground arith))

-- A device on which nothing is registered: a probe that fails leaves no platform device and nothing
-- that its driver registers, and no pointer to it; a probe that returns 0 leaves the platform
-- device with its pointer, and either all that its driver registers or nothing. It returns 0
-- exactly when no interrupt that there is is refused, the platform device is registered, and the
-- sensor answers with 0x68 and is set up, or does not answer at all while the unset variable
-- happens to be 0. After either, the removal leaves nothing registered but the managed interrupts.
pub probe_remove :
    (k : I2cCalls)
    → let r = i2c_device_probe k unbound in
      let ok =
        (not (is_pos k.irq0) || is_zero k.request0_ret)
        && ((not (is_pos k.irq1) || is_zero k.request1_ret)
            && (is_zero k.register_ret && answers k)) in
      Leaves ok r
unfolding i2c_device_probe
probe_remove k =
    let ok =
      (not (is_pos k.irq0) || is_zero k.request0_ret)
      && ((not (is_pos k.irq1) || is_zero k.request1_ret)
          && (is_zero k.register_ret && answers k)) in
    if_keeps (Leaves ok) (is_pos k.irq0)
      (λ p.
        if_keeps (Leaves ok) (not (is_zero k.request0_ret))
          (λ t. failed_early k.request0_ret false false ok (ground arith) (ground arith))
          (λ f. request_irq1-Leaves k true ok (ground arith)))
      (λ n. request_irq1-Leaves k false ok (ground arith))
