-- ===== src/I2c2/Setup/Ready.antt =====
-- When the initialisation fails, the driver does not become ready.
use linux_device_drivers_hw.Base.{
  ℕ, true, false, not, ◌≡◌, ◌∙◌, ℤ, is_pos, is_zero, arith, if_keeps, if◌then◌else◌, ◌==◌,
}
use linux_device_drivers_hw.I2c2.Regs.{con}
use linux_device_drivers_hw.I2c2.State.{Ll, i2c_w}
use linux_device_drivers_hw.I2c2.State.Frame.{Keeps-trans}
use linux_device_drivers_hw.I2c2.Clock.Quiet.{disable_clk-Quiet}
use linux_device_drivers_hw.I2c2.Transfer.Frame.{Keeps-Quiet}
use linux_device_drivers_hw.I2c2.Setup.{map_bases, program, request_irq, attach, enable_clk, init}
use linux_device_drivers_hw.I2c2.Setup.Resources.{
  Inv, map_bases-Inv, enable_clk-Quiet, program-Keeps,
}

-- A failure that leaves the driver not ready.
abbrev StaysDown : ℤ × Ll → Type 0
StaysDown r = is_zero r.0 ≡ false → r.1.g_i2c2_ready ≡ false

attach-StaysDown : (s : Ll) → s.g_i2c2_ready ≡ false → StaysDown (attach s)
unfolding attach request_irq
attach-StaysDown s n z = ground (arith, disable_clk-Quiet (i2c_w con 0 (request_irq s).1).1)

init-StaysDown :
    (khz : ℕ) (irq : ℤ) (s : Ll) → s.g_i2c2_ready ≡ false → Inv s → StaysDown (init khz irq s)
unfolding init
init-StaysDown khz irq s n v =
    let s1 = record s { g_i2c2_irq = irq } in
    let t = map_bases s1 in
    let (v1, n1, q1, m1) = map_bases-Inv s1 n (ground arith) in
    if_keeps StaysDown s.g_i2c2_ready (λ _ _. n)
      (λ _.
        if_keeps StaysDown (not (is_pos irq)) (λ _ _. n)
          (λ p.
            if_keeps (λ (m : Ll → ℤ × Ll). StaysDown (m t.1)) (not t.0) (λ _ _. n1)
              (λ mapped.
                let b : t.1.i2c2_base ≡ true = ground arith in
                let e = enable_clk t.1 in
                let k = Keeps-Quiet t.1 e.1 (enable_clk-Quiet t.1 (v1.order b)) in
                let speed = if khz == 0 then 100 else khz in
                let l = Keeps-trans t.1 e.1 _ k (program-Keeps speed e.1 (k.same_i2c2 ∙ b)) in
                if_keeps (λ (m : Ll → ℤ × Ll). StaysDown (m e.1)) (not (is_pos e.0))
                  (λ _ _. k.same_ready ∙ n1)
                  (λ _. attach-StaysDown (program speed e.1).1 (l.same_ready ∙ n1)))))

-- `i2c2_ll_init`, called while the driver is not ready and keeps its resource invariant, leaves it
-- not ready when it fails.
pub init-ready :
    (khz : ℕ) (irq : ℤ) (s : Ll)
    → s.g_i2c2_ready ≡ false
    → Inv s
    → is_zero (init khz irq s).0 ≡ false
    → (init khz irq s).1.g_i2c2_ready ≡ false
init-ready khz irq s n v z = init-StaysDown khz irq s n v z
