-- ===== src/Mpu6050/Probe/Unwinding.antt =====
-- What a failed probe and a removal leave registered, and the controller's invariant across both.
use linux_device_drivers_hw.Base.{
  ◌/◌, max, Bool, ◌&&◌, sym, true, false, not, ◌≡◌, refl, ◌∙◌, ◌⊎◌, ℤ, negsuc, is_neg, is_pos,
  is_zero, arith, if◌then◌else◌, if_keeps,
}
use linux_device_drivers_hw.Base.Errno.{enomem}
use linux_device_drivers_hw.I2c2.State.{Ll}
use linux_device_drivers_hw.I2c2.Setup
use linux_device_drivers_hw.I2c2.Setup.Resources.{Inv}
use linux_device_drivers_hw.I2c2.Setup.Ready.{init-ready}
use linux_device_drivers_hw.Mpu6050.Bus.{i2c2_bus}
use linux_device_drivers_hw.Mpu6050.Driver.{remove_mpu6050, init_mpu6050}
use linux_device_drivers_hw.Mpu6050.Probe.{
  remove, Tree, Kernel, Platform, drop_i2c2, err_unregister_chrdev, err_cdev_del, err_class_destroy,
  request_mpu, create_device, create_class, add_cdev, register, start, probe, adopt, bus_freq_of,
}

-- Nothing but perhaps the device node is registered, and the controller is down.
pub record IsDown (p : Platform) : Type 0 where
  pub devno : p.devno ≡ false
  pub cdev : p.cdev ≡ false
  pub class : p.class ≡ false
  pub handler : p.handler ≡ false
  pub drvdata : p.drvdata ≡ false
  pub ll : p.ll.g_i2c2_ready ≡ false

deinit-ready : (s : Ll) → (Setup.deinit s).1.g_i2c2_ready ≡ false
unfolding Setup.deinit Setup.release
deinit-ready s = ground arith

-- A failed registration: everything is down, but the device node is there exactly if it was made.
abbrev Unwound : Bool → ℤ × Platform → Type 0
Unwound made r = is_zero r.0 ≡ false → IsDown r.1 × (r.1.device ≡ made)

abbrev Fresh : Platform → Type 0
Fresh p =
    (p.devno ≡ false)
    × (p.cdev ≡ false)
    × (p.class ≡ false)
    × (p.device ≡ false)
    × (p.handler ≡ false)
    × (p.drvdata ≡ false)

-- Everything is down, and the device node as it was.
abbrev Dropped : Platform → Platform → Type 0
Dropped p t = IsDown t × (t.device ≡ p.device)

drop_i2c2-Dropped :
    (p : Platform)
    → p.devno ≡ false
    → p.cdev ≡ false
    → p.class ≡ false
    → p.handler ≡ false
    → p.drvdata ≡ false
    → Dropped p (drop_i2c2 p)
unfolding drop_i2c2
drop_i2c2-Dropped p n c l h d = (
  record { devno = n; cdev = c; class = l; handler = h; drvdata = d; ll = deinit-ready p.ll },
  refl,
)

unregister-Dropped :
    (p : Platform)
    → p.cdev ≡ false
    → p.class ≡ false
    → p.handler ≡ false
    → p.drvdata ≡ false
    → Dropped p (err_unregister_chrdev p)
unfolding err_unregister_chrdev
unregister-Dropped p c l h d = drop_i2c2-Dropped (record p { devno = false }) refl c l h d

cdev_del-Dropped :
    (p : Platform)
    → p.class ≡ false
    → p.handler ≡ false
    → p.drvdata ≡ false
    → Dropped p (err_cdev_del p)
unfolding err_cdev_del
cdev_del-Dropped p l h d = unregister-Dropped (record p { cdev = false }) refl l h d

class_destroy-Dropped :
    (p : Platform) → p.handler ≡ false → p.drvdata ≡ false → Dropped p (err_class_destroy p)
unfolding err_class_destroy
class_destroy-Dropped p h d = cdev_del-Dropped (record p { class = false }) refl h d

dropped :
    (p t : Platform) (ret : ℤ) (made : Bool)
    → p.device ≡ false
    → made ≡ false
    → Dropped p t
    → Unwound made (ret, t)
dropped p t ret made d m h z = (h.0, h.1 ∙ d ∙ sym m)

request_mpu-Unwound :
    (k : Kernel) (irq_mpu : ℤ) (p : Platform) (made : Bool)
    → p.device ≡ true
    → made ≡ true
    → p.handler ≡ false
    → p.drvdata ≡ false
    → Unwound made (request_mpu k irq_mpu p)
unfolding request_mpu
request_mpu-Unwound k irq_mpu p made d m h v =
    if_keeps (Unwound made) (is_pos irq_mpu)
      (λ _.
        if_keeps (Unwound made) (not (is_zero k.request_ret))
          (λ refused _. let t = class_destroy-Dropped p h v in (t.0, t.1 ∙ d ∙ sym m))
          (λ _ z. absurd (ground arith)))
      (λ _ z. absurd (ground arith))

create_device-Unwound :
    (k : Kernel) (irq_mpu : ℤ) (p : Platform) (made : Bool)
    → made ≡ is_zero k.device_ret
    → p.device ≡ false
    → p.handler ≡ false
    → p.drvdata ≡ false
    → Unwound made (create_device k irq_mpu p)
unfolding create_device
create_device-Unwound k irq_mpu p made e d h v =
    if_keeps (Unwound made) (not (is_zero k.device_ret))
      (λ z.
        dropped p (err_class_destroy p) k.device_ret made d (ground arith)
          (class_destroy-Dropped p h v))
      (λ z. request_mpu-Unwound k irq_mpu (record p { device = true }) made refl (ground arith) h v)

create_class-Unwound :
    (k : Kernel) (irq_mpu : ℤ) (p : Platform) (made : Bool)
    → made ≡ (is_zero k.class_ret && is_zero k.device_ret)
    → p.class ≡ false
    → p.device ≡ false
    → p.handler ≡ false
    → p.drvdata ≡ false
    → Unwound made (create_class k irq_mpu p)
unfolding create_class
create_class-Unwound k irq_mpu p made e l d h v =
    if_keeps (Unwound made) (not (is_zero k.class_ret))
      (λ z. dropped p (err_cdev_del p) k.class_ret made d (ground arith) (cdev_del-Dropped p l h v))
      (λ z. create_device-Unwound k irq_mpu (record p { class = true }) made (ground arith) d h v)

add_cdev-Unwound :
    (k : Kernel) (irq_mpu : ℤ) (p : Platform) (made : Bool)
    → made ≡ (is_zero k.cdev_ret && (is_zero k.class_ret && is_zero k.device_ret))
    → p.cdev ≡ false
    → p.class ≡ false
    → p.device ≡ false
    → p.handler ≡ false
    → p.drvdata ≡ false
    → Unwound made (add_cdev k irq_mpu p)
unfolding add_cdev
add_cdev-Unwound k irq_mpu p made e c l d h v =
    if_keeps (Unwound made) (not (is_zero k.cdev_ret))
      (λ z.
        dropped p (err_unregister_chrdev p) k.cdev_ret made d (ground arith)
          (unregister-Dropped p c l h v))
      (λ z. create_class-Unwound k irq_mpu (record p { cdev = true }) made (ground arith) l d h v)

-- The calls of the kernel in front of request_irq succeed.
abbrev pub registers : Kernel → Bool
registers k =
    k.kzalloc_ok
    && (is_zero k.alloc_ret
        && (is_zero k.cdev_ret && (is_zero k.class_ret && is_zero k.device_ret)))

register-Unwound :
    (k : Kernel) (irq_mpu : ℤ) (p : Platform) (made : Bool)
    → made ≡ registers k
    → Fresh p
    → Unwound made (register k irq_mpu p)
unfolding register
register-Unwound k irq_mpu p made e (n, c, l, d, h, v) =
    if_keeps (Unwound made) (not k.kzalloc_ok)
      (λ z. dropped p (drop_i2c2 p) enomem made d (ground arith) (drop_i2c2-Dropped p n c l h v))
      (λ ok.
        if_keeps (Unwound made) (not (is_zero k.alloc_ret))
          (λ z.
            dropped p (drop_i2c2 p) k.alloc_ret made d (ground arith)
              (drop_i2c2-Dropped p n c l h v))
          (λ z.
            add_cdev-Unwound k irq_mpu (record p { irq_mpu = negsuc 0; devno = true }) made
              (ground arith) c l d h v))

-- The probe makes the device node: it has an interrupt, and the controller, the sensor and the calls of
-- the kernel up to device_create succeed.
abbrev pub makes_node : Tree → Kernel → Platform → Bool
makes_node t k p =
    let i = Setup.init (max 1 (bus_freq_of t / 1000)) t.irq p.ll in
    let a = if t.of_node then adopt t.children p.dev else (p.dev, negsuc 0) in
    let r = init_mpu6050 i2c2_bus a.0 i.1 in
    not (is_neg t.irq) && (is_zero i.0 && (is_zero r.0.0 && registers k))

probe-Unwound :
    (t : Tree) (k : Kernel) (p : Platform) (made : Bool)
    → made ≡ makes_node t k p
    → Fresh p
    → p.ll.g_i2c2_ready ≡ false
    → Inv p.ll
    → Unwound made (probe t k p)
unfolding probe start
probe-Unwound t k p made e f down inv =
    let (n, c, l, d, h, v) = f in
    let khz = max 1 (bus_freq_of t / 1000) in
    let i = Setup.init khz t.irq p.ll in
    let a = if t.of_node then adopt t.children p.dev else (p.dev, negsuc 0) in
    let r = init_mpu6050 i2c2_bus a.0 i.1 in
    let p1 = record p { dev = r.0.1; ll = r.1 } in
    if_keeps (Unwound made) (is_neg t.irq)
      (λ neg _. (
        record { devno = n; cdev = c; class = l; handler = h; drvdata = v; ll = down },
        d ∙ sym (e ∙ rw neg refl),
      ))
      (λ has.
        if_keeps (Unwound made) (not (is_zero i.0))
          (λ z _. (
            record {
              devno = n;
              cdev = c;
              class = l;
              handler = h;
              drvdata = v;
              ll = init-ready khz t.irq p.ll down inv (ground arith);
            },
            let z' : is_zero i.0 ≡ false = ground arith in d ∙ sym (e ∙ rw (has, z') refl),
          ))
          (λ up.
            let up' : is_zero i.0 ≡ true = ground arith in
            if_keeps (Unwound made) (not (is_zero r.0.0))
              (λ z.
                let z' : is_zero r.0.0 ≡ false = ground arith in
                dropped p1 (drop_i2c2 p1) r.0.0 made d (e ∙ rw (has, up', z') refl)
                  (drop_i2c2-Dropped p1 n c l h v))
              (λ z.
                let z' : is_zero r.0.0 ≡ true = ground arith in
                register-Unwound k a.1 p1 made (e ∙ rw (has, up', z') refl) f)))

-- From a platform on which nothing is registered and the controller is down and keeps its resource
-- invariant, a probe that fails leaves the controller down and nothing registered, but for the device
-- node: that is left exactly when the probe had made it, with an interrupt for the controller, and
-- with the controller, the sensor and the calls of the kernel up to device_create all succeeding.
pub probe_unwinds :
    (t : Tree) (k : Kernel) (p : Platform)
    → Fresh p
    → p.ll.g_i2c2_ready ≡ false
    → Inv p.ll
    → is_zero (probe t k p).0 ≡ false
    → let q = (probe t k p).1 in IsDown q × (q.device ≡ makes_node t k p)
probe_unwinds t k p f down inv failed =
    probe-Unwound t k p (makes_node t k p) refl f down inv failed

-- A removal of a platform whose probe stored its data, and whose registered handler, if any, has a
-- positive interrupt number, leaves nothing registered, the device node included, and the
-- controller down, whether or not the reset of the sensor succeeds.
remove_clears :
    (p : Platform)
    → p.drvdata ≡ true
    → (p.handler ≡ false) ⊎ (is_pos p.irq_mpu ≡ true)
    → let q = remove p in
      (q.devno ≡ false)
      × (q.cdev ≡ false)
      × (q.class ≡ false)
      × (q.device ≡ false)
      × (q.handler ≡ false)
      × (q.ll.g_i2c2_ready ≡ false)
unfolding remove drop_i2c2
remove_clears p d h =
    let p1 = if is_pos p.irq_mpu then record p { handler = false; irq_mpu = negsuc 0 } else p in
    ground (arith, deinit-ready (remove_mpu6050 i2c2_bus p1.dev p1.ll).1)
