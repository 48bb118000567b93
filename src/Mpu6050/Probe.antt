-- ===== src/Mpu6050/Probe.antt =====
-- mpu_platform_probe and mpu_platform_remove of mpu6050_core.c, over the I2C2 controller. What the
-- device tree and the kernel answer is a parameter, and what has been registered with the kernel is
-- state.
pub mod Unwinding
use linux_device_drivers_hw.Base.{
  ℕ, ◌/◌, ◌%◌, max, Bool, true, false, not, ◌==◌, List, [], ◌∷◌, Option, none, some, ℤ, pos, negsuc,
  is_neg, is_pos, is_zero, if◌then◌else◌,
}
use linux_device_drivers_hw.Base.Errno.{enomem}
use linux_device_drivers_hw.I2c2.State.{Ll}
use linux_device_drivers_hw.I2c2.Setup
use linux_device_drivers_hw.Mpu6050.Bus.{i2c2_bus}
use linux_device_drivers_hw.Mpu6050.Device.{Dev}
use linux_device_drivers_hw.Mpu6050.Driver.{init_mpu6050, remove_mpu6050}

-- A child of the device's node: whether it is compatible, its address if the property can be read,
-- and its interrupt.
pub record Child : Type 0 where
  pub compatible : Bool
  pub reg : Option ℕ
  pub irq : ℤ

-- What the device tree holds.
pub record Tree : Type 0 where
  pub of_node : Bool
  pub bus_frequency : Option ℕ
  pub irq : ℤ
  pub children : List Child

-- What the kernel's functions return; for the two that return a pointer, 0 is a pointer and
-- anything else the error that it encodes.
pub record Kernel : Type 0 where
  pub kzalloc_ok : Bool
  pub alloc_ret : ℤ
  pub cdev_ret : ℤ
  pub class_ret : ℤ
  pub device_ret : ℤ
  pub request_ret : ℤ

-- The controller, the sensor, and what the driver has registered with the kernel.
pub record Platform : Type 0 where
  pub ll : Ll
  pub dev : Dev
  pub devno : Bool
  pub cdev : Bool
  pub class : Bool
  pub device : Bool
  pub handler : Bool
  pub drvdata : Bool
  pub irq_mpu : ℤ

-- The frequency of the bus in Hz, by the device tree.
unfoldable pub bus_freq_of : Tree → ℕ
bus_freq_of t = if t.of_node then freq_of t.bus_frequency else 100000
  where
    freq_of : Option ℕ → ℕ
    freq_of none = 100000
    freq_of (some f) = if f == 0 then 100000 else f

-- The address of the first compatible child, and its interrupt; -1 without one.
unfoldable pub adopt : List Child → Dev → Dev × ℤ
adopt [] dev = (dev, negsuc 0)
adopt (c ∷ cs) dev =
    let other = adopt cs dev in if c.compatible then (with_addr c.reg, c.irq) else other
  where
    with_addr : Option ℕ → Dev
    with_addr none = dev
    with_addr (some addr) = record dev { i2c_addr = addr % 0x80 }

-- i2c2_ll_deinit
unfoldable pub drop_i2c2 : Platform → Platform
drop_i2c2 p = record p { ll = (Setup.deinit p.ll).1 }

-- The three labels at the end of the probe, each going on with the next.
unfoldable pub err_unregister_chrdev : Platform → Platform
err_unregister_chrdev p = drop_i2c2 (record p { devno = false })

unfoldable pub err_cdev_del : Platform → Platform
err_cdev_del p = err_unregister_chrdev (record p { cdev = false })

unfoldable pub err_class_destroy : Platform → Platform
err_class_destroy p = err_cdev_del (record p { class = false })

-- The interrupt of the sensor, and the end of the probe.
unfoldable pub request_mpu : Kernel → ℤ → Platform → ℤ × Platform
request_mpu k irq_mpu p =
    if is_pos irq_mpu
    then (if not (is_zero k.request_ret)
        then (k.request_ret, err_class_destroy p)
        else (pos 0, record p { handler = true; irq_mpu = irq_mpu; drvdata = true }))
    else (pos 0, record p { drvdata = true })

-- device_create and what follows it
unfoldable pub create_device : Kernel → ℤ → Platform → ℤ × Platform
create_device k irq_mpu p =
    let rest = request_mpu k irq_mpu (record p { device = true }) in
    if not (is_zero k.device_ret) then (k.device_ret, err_class_destroy p) else rest

-- class_create and what follows it
unfoldable pub create_class : Kernel → ℤ → Platform → ℤ × Platform
create_class k irq_mpu p =
    let rest = create_device k irq_mpu (record p { class = true }) in
    if not (is_zero k.class_ret) then (k.class_ret, err_cdev_del p) else rest

-- cdev_add and what follows it
unfoldable pub add_cdev : Kernel → ℤ → Platform → ℤ × Platform
add_cdev k irq_mpu p =
    let rest = create_class k irq_mpu (record p { cdev = true }) in
    if not (is_zero k.cdev_ret) then (k.cdev_ret, err_unregister_chrdev p) else rest

-- The probe from the allocation of its data on.
unfoldable pub register : Kernel → ℤ → Platform → ℤ × Platform
register k irq_mpu p =
    let rest = add_cdev k irq_mpu (record p { irq_mpu = negsuc 0; devno = true }) in
    if not k.kzalloc_ok
    then (enomem, drop_i2c2 p)
    else if not (is_zero k.alloc_ret)
    then (k.alloc_ret, drop_i2c2 p)
    else rest

-- The probe from the return of i2c2_ll_init on.
unfoldable pub start : Tree → Kernel → Platform → ℤ × Platform
start t k p =
    let a = if t.of_node then adopt t.children p.dev else (p.dev, negsuc 0) in
    let r = init_mpu6050 i2c2_bus a.0 p.ll in
    let p1 = record p { dev = r.0.1; ll = r.1 } in
    let rest = register k a.1 p1 in if not (is_zero r.0.0) then (r.0.0, drop_i2c2 p1) else rest

-- mpu_platform_probe
unfoldable pub probe : Tree → Kernel → Platform → ℤ × Platform
probe t k p =
    let bus_khz = max 1 (bus_freq_of t / 1000) in
    let r = Setup.init bus_khz t.irq p.ll in
    let p1 = record p { ll = r.1 } in
    let rest = start t k p1 in
    if is_neg t.irq then (t.irq, p) else if not (is_zero r.0) then (r.0, p1) else rest

-- mpu_platform_remove
unfoldable pub remove : Platform → Platform
remove p =
    let p1 = if is_pos p.irq_mpu then record p { handler = false; irq_mpu = negsuc 0 } else p in
    let p2 = record p1 { device = false; class = false; cdev = false; devno = false } in
    let r = remove_mpu6050 i2c2_bus p2.dev p2.ll in
    if not p.drvdata then p else drop_i2c2 (record p2 { ll = r.1 })
