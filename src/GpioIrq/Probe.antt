-- ===== src/GpioIrq/Probe.antt =====
-- What the probe leaves registered.
use linux_device_drivers_hw.Base.{◌≡◌, ◌↔◌, true, false, not, ◌&&◌, ℤ, is_neg, is_zero, arith}
use linux_device_drivers_hw.GpioIrq.{Binding, platform_device_probe, platform_device_remove}

-- From a driver that has not registered the misc device, whatever the three registrations return,
-- the probe returns 0 exactly when the device is registered afterwards, which is exactly when the
-- interrupt number is not negative and both registrations return 0, and then the interrupt has been
-- requested; a removal unregisters the device.
probe_registers :
    (irq request_ret misc_ret : ℤ) (b : Binding)
    → b.misc_registered ≡ false
    → let r = platform_device_probe irq request_ret misc_ret b in
      ((is_zero r.0 ≡ true) ↔ (r.1.misc_registered ≡ true))
      × (r.1.misc_registered ≡ (not (is_neg irq) && (is_zero request_ret && is_zero misc_ret)))
      × ((r.1.misc_registered && not r.1.irq_requested) ≡ false)
      × ((platform_device_remove r.1).misc_registered ≡ false)
unfolding platform_device_probe platform_device_remove
probe_registers irq request_ret misc_ret b h = ground arith
