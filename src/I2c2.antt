-- ===== src/I2c2.antt =====
-- 09_BeagleBone_lowlevel/i2c2_ll.c and i2c2_ll.h: the interrupt driven I2C2 controller of the
-- AM335x.
pub mod Regs
pub mod State
pub mod Isr
pub mod Clock
pub mod Transfer
pub mod Setup
