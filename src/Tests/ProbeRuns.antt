-- ===== src/Tests/ProbeRuns.antt =====
-- The probe of the platform driver on a controller and a sensor that work.
use linux_device_drivers_hw.Base.{ℕ, true, false, ◌≡◌, refl, [], ◌∷◌, some, pos, negsuc}
use linux_device_drivers_hw.I2c2.Regs.{Reg, syss}
use linux_device_drivers_hw.I2c2.State.{Irq, Ll, i2c_r, i2c_w, cm_r, cm_w, udelay}
use linux_device_drivers_hw.I2c2.Isr.{run_irqs, irq_handler, on_xrdy, on_rrdy, on_ardy}
use linux_device_drivers_hw.I2c2.Clock.{ensure_clk, clk_is_on, wait_bus_free, poll_bus}
use linux_device_drivers_hw.I2c2.Transfer.{
  wait_done, begin_transfer, finish_transfer, start_transfer, start_write, start_read, write_byte,
  read_byte,
}
use linux_device_drivers_hw.I2c2.Setup
use linux_device_drivers_hw.I2c2.Setup.Resources.{Inv}
use linux_device_drivers_hw.Mpu6050.Config.{default_config}
use linux_device_drivers_hw.Mpu6050.Device
use linux_device_drivers_hw.Mpu6050.Driver.{init_mpu6050}
use linux_device_drivers_hw.Mpu6050.Probe
use linux_device_drivers_hw.Mpu6050.Probe.{Tree, Kernel, Platform, probe}
use linux_device_drivers_hw.Mpu6050.Probe.Unwinding.{IsDown, probe_unwinds}
use linux_device_drivers_hw.Tests.I2c2Controller.{boot, end}

-- The clock is on, the reset is done, the bus is free.
abbrev answer : Reg → ℕ
answer syss = 1
answer _ = 2

-- The controller asks for a byte and brings 0x68; what the transfer does not need is not served.
abbrev any : Irq
any = record { raw = 24; status = 24; byte = 0x68 }

abbrev live : Ll
live = record boot {
  hw = record (boot.hw) { reply = λ t r. answer r; irqs = λ t. any ∷ any ∷ end ∷ [] };
}

live-Inv : Inv live
live-Inv = record {
  no_fault = refl;
  maps_known = refl;
  handler_known = refl;
  free = refl;
  order = λ h. cc;
  ready_mapped = λ h. cc;
  ready_irq = λ h. cc;
}

abbrev platform : Platform
platform = record {
  ll = live;
  dev = record { i2c_addr = 0x68; accel_scale = 0; gyro_scale = 0; initialized = false };
  devno = false;
  cdev = false;
  class = false;
  device = false;
  handler = false;
  drvdata = false;
  irq_mpu = negsuc 0;
}

abbrev tree : Tree
tree = record {
  of_node = true;
  bus_frequency = some 400000;
  irq = pos 30;
  children = record { compatible = true; reg = some 0x68; irq = pos 31 } ∷ [];
}

-- The kernel refuses the interrupt of the sensor.
abbrev refusing : Kernel
refusing = record {
  kzalloc_ok = true;
  alloc_ret = pos 0;
  cdev_ret = pos 0;
  class_ret = pos 0;
  device_ret = pos 0;
  request_ret = negsuc 15;
}

probe_unwinds_example : let q = (probe tree refusing platform).1 in IsDown q × (q.device ≡ true)
unfolding probe Setup.init Setup.map_bases Setup.ioremap Setup.map_i2c2 Setup.enable_clk
    Setup.poll_enable Setup.program Setup.poll_reset Setup.set_speed Setup.request_irq Setup.attach
    i2c_r i2c_w cm_r cm_w udelay run_irqs irq_handler on_xrdy on_rrdy on_ardy ensure_clk clk_is_on
    wait_bus_free poll_bus wait_done begin_transfer finish_transfer start_transfer start_write
    start_read write_byte read_byte default_config Device.init Device.configure Device.reset
    Device.reset_fifo Device.write_reg Device.kdd_read_byte init_mpu6050 Probe.start Probe.adopt
    Probe.bus_freq_of Probe.register Probe.add_cdev Probe.create_class Probe.create_device
    Probe.request_mpu
probe_unwinds_example =
    probe_unwinds tree refusing platform (refl, refl, refl, refl, refl, refl) refl live-Inv refl
