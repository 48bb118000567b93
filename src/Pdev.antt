-- ===== src/Pdev.antt =====
-- 08_BeagleBone_pdev/mpu6050_core.c: the probe and the removal on the I2C bus, the platform device
-- that it registers, whose driver makes the character device, and the start and exit of the module.
-- The sensor's primitives and the kernel's registration calls answer as a parameter says; the
-- driver core probes the platform device when it is registered, and releases managed interrupts.
pub mod Outcome
pub mod Driver
pub mod Binding
pub mod Through
pub mod Rebind
use linux_device_drivers_hw.Base.{
  ℕ, Bool, true, false, not, ◌&&◌, Option, none, some, ℤ, pos, negsuc, is_pos, is_zero,
  if◌then◌else◌, ◌==◌,
}
use linux_device_drivers_hw.Mpu6050.Regs.{i2c_addr_default}
use linux_device_drivers_hw.Base.Errno.{enodev, enomem}

-- What the platform driver has registered, and whether its data is stored with the device.
pub record Node : Type 0 where
  pub chrdev : Bool
  pub cdev : Bool
  pub class : Bool
  pub device : Bool
  pub drvdata : Bool

-- What the calls of mpu_platform_probe answer.
pub record NodeCalls : Type 0 where
  pub has_client : Bool
  pub kzalloc_ok : Bool
  pub chrdev_ret : ℤ
  pub cdev_ret : ℤ
  pub class_ret : ℤ
  pub device_ret : ℤ

unfoldable pub err_unregister_chrdev : Node → Node
err_unregister_chrdev n = record n { chrdev = false }

unfoldable pub err_cdev_del : Node → Node
err_cdev_del n = err_unregister_chrdev (record n { cdev = false })

unfoldable pub err_class_destroy : Node → Node
err_class_destroy n = err_cdev_del (record n { class = false })

-- mpu_platform_probe
unfoldable pub mpu_platform_probe : NodeCalls → Node → ℤ × Node
unfolding err_class_destroy err_cdev_del err_unregister_chrdev
mpu_platform_probe k n =
    let n1 = record n { chrdev = true } in
    let n2 = record n1 { cdev = true } in
    let n3 = record n2 { class = true } in
    if not k.has_client
    then (enodev, n)
    else if not k.kzalloc_ok
    then (enomem, n)
    else if not (is_zero k.chrdev_ret)
    then (k.chrdev_ret, n)
    else if not (is_zero k.cdev_ret)
    then (k.cdev_ret, err_unregister_chrdev n1)
    else if not (is_zero k.class_ret)
    then (k.class_ret, err_cdev_del n2)
    else if not (is_zero k.device_ret)
    then (k.device_ret, err_class_destroy n3)
    else (pos 0, record n3 { device = true; drvdata = true })

-- mpu_platform_remove; the driver core then forgets the data.
unfoldable pub mpu_platform_remove : Node → Node
mpu_platform_remove n =
    if n.drvdata
    then record { chrdev = false; cdev = false; class = false; device = false; drvdata = false }
    else n

-- What the I2C driver holds: the platform device, the pointer to it in the client's data, and the
-- two interrupts.
pub record I2cDevice : Type 0 where
  pub node : Node
  pub pdev : Bool
  pub clientdata : Bool
  pub irq0 : Bool
  pub irq1 : Bool

-- What the calls of i2c_device_probe answer; `junk` is what stands in the variable that
-- mpu6050_kdd_whoami leaves alone when it fails.
pub record I2cCalls : Type 0 where
  pub irq0 : ℤ
  pub request0_ret : ℤ
  pub irq1 : ℤ
  pub request1_ret : ℤ
  pub register_ret : ℤ
  pub node : NodeCalls
  pub whoami : Option ℕ
  pub junk : ℕ
  pub init_ok : Bool

-- init_mpu6050
unfoldable pub init_mpu6050 : Option ℕ → ℕ → Bool → ℤ
init_mpu6050 none junk init_ok = pos junk
init_mpu6050 (some id) junk init_ok =
    if not (id == i2c_addr_default) then enodev else if not init_ok then pos id else pos 0

-- platform_device_register_data, whose device the platform driver's probe is called for.
unfoldable pub register_pdev : NodeCalls → I2cDevice → I2cDevice
register_pdev k d = record d { pdev = true; node = (mpu_platform_probe k d.node).1 }

-- platform_device_unregister, which calls the platform driver's removal.
unfoldable pub unregister_pdev : I2cDevice → I2cDevice
unregister_pdev d = record d { pdev = false; node = mpu_platform_remove d.node }

-- The platform device and the sensor.
unfoldable pub probe_device : I2cCalls → I2cDevice → ℤ × I2cDevice
unfolding register_pdev unregister_pdev init_mpu6050
probe_device k d =
    let d1 = record (register_pdev k.node d) { clientdata = true } in
    let ret = init_mpu6050 k.whoami k.junk k.init_ok in
    if not (is_zero k.register_ret)
    then (k.register_ret, d)
    else if not (is_zero ret)
    then (ret, record (unregister_pdev d1) { clientdata = false })
    else (pos 0, d1)

unfoldable pub request_irq1 : I2cCalls → I2cDevice → ℤ × I2cDevice
unfolding probe_device
request_irq1 k d =
    if is_pos k.irq1
    then (if not (is_zero k.request1_ret)
        then (k.request1_ret, d)
        else probe_device k (record d { irq1 = true }))
    else probe_device k d

-- i2c_device_probe
unfoldable pub i2c_device_probe : I2cCalls → I2cDevice → ℤ × I2cDevice
unfolding request_irq1
i2c_device_probe k d =
    if is_pos k.irq0
    then (if not (is_zero k.request0_ret)
        then (k.request0_ret, d)
        else request_irq1 k (record d { irq0 = true }))
    else request_irq1 k d

-- i2c_device_remove; the result of the reset of the sensor is ignored.
unfoldable pub i2c_device_remove : I2cDevice → I2cDevice
unfolding unregister_pdev
i2c_device_remove d = if d.clientdata then unregister_pdev d else d

-- The two drivers that the module registers.
record Drivers : Type 0 where
  pub platform : Bool
  i2c : Bool

-- mpu_module_init
unfoldable mpu_module_init : ℤ → ℤ → Drivers → ℤ × Drivers
mpu_module_init platform_ret i2c_ret d =
    let d1 = record d { platform = true } in
    if not (is_zero platform_ret)
    then (platform_ret, d)
    else if not (is_zero i2c_ret)
    then (i2c_ret, record d1 { platform = false })
    else (pos 0, record d1 { i2c = true })

-- mpu_module_exit
unfoldable mpu_module_exit : Drivers → Drivers
mpu_module_exit d = record (record d { i2c = false }) { platform = false }
