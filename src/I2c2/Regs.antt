-- ===== src/I2c2/Regs.antt =====
-- The registers and bits of i2c2_ll.h.
pub mod Con
pub mod IrqBit
use linux_device_drivers_hw.Base.{ℕ, ◌+◌}

-- A register that the driver touches: the clock control of the CM_PER block, and those of I2C2.
pub data Reg : Type 0 where
  clkctrl : Reg
  sysc irqstatus_raw irqstatus irqenable_set syss fifo_buf cnt i2c_data con oa sa psc scll sclh :
      Reg

-- The physical address: base plus offset.
pub address : Reg → ℕ
address clkctrl = 0x44e00000 + 0x44
address sysc = 0x4819c000 + 0x10
address irqstatus_raw = 0x4819c000 + 0x24
address irqstatus = 0x4819c000 + 0x28
address irqenable_set = 0x4819c000 + 0x2c
address syss = 0x4819c000 + 0x90
address fifo_buf = 0x4819c000 + 0x94
address cnt = 0x4819c000 + 0x98
address i2c_data = 0x4819c000 + 0x9c
address con = 0x4819c000 + 0xa4
address oa = 0x4819c000 + 0xa8
address sa = 0x4819c000 + 0xac
address psc = 0x4819c000 + 0xb0
address scll = 0x4819c000 + 0xb4
address sclh = 0x4819c000 + 0xb8
