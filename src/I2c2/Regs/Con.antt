-- ===== src/I2c2/Regs/Con.antt =====
-- The I2C_CON bits of i2c2_ll.h, as masks.
use linux_device_drivers_hw.Base.{ℕ, ◌^◌}

abbrev pub en : ℕ
en = 2 ^ 15

abbrev pub mst : ℕ
mst = 2 ^ 10

abbrev pub trx : ℕ
trx = 2 ^ 9

abbrev pub stp : ℕ
stp = 2 ^ 1

abbrev pub stt : ℕ
stt = 2 ^ 0
