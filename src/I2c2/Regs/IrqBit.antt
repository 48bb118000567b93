-- ===== src/I2c2/Regs/IrqBit.antt =====
-- The I2C_IRQ_* bits of i2c2_ll.h, as bit numbers.
use linux_device_drivers_hw.Base.{ℕ}

abbrev pub al : ℕ
al = 0

abbrev pub nack : ℕ
nack = 1

abbrev pub ardy : ℕ
ardy = 2

abbrev pub rrdy : ℕ
rrdy = 3

abbrev pub xrdy : ℕ
xrdy = 4

abbrev pub bb : ℕ
bb = 12
