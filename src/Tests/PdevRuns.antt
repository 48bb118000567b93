-- ===== src/Tests/PdevRuns.antt =====
-- A probe on the I2C bus with a sensor that does not answer.
use linux_device_drivers_hw.Base.{true, false, none, pos, negsuc}
use linux_device_drivers_hw.Pdev.{NodeCalls, I2cCalls, i2c_device_probe}
use linux_device_drivers_hw.Pdev.Outcome.{unbound, Leaves, probe_remove}

abbrev node_calls : NodeCalls
node_calls = record {
  has_client = true;
  kzalloc_ok = true;
  chrdev_ret = pos 0;
  cdev_ret = pos 0;
  class_ret = negsuc 11;
  device_ret = pos 0;
}

abbrev calls : I2cCalls
calls = record {
  irq0 = pos 31;
  request0_ret = pos 0;
  irq1 = negsuc 5;
  request1_ret = pos 0;
  register_ret = pos 0;
  node = node_calls;
  whoami = none;
  junk = 0;
  init_ok = false;
}

probe_remove_example : Leaves true (i2c_device_probe calls unbound)
probe_remove_example = probe_remove calls
