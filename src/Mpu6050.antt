-- ===== src/Mpu6050.antt =====
-- The MPU6050 sensor of 09_BeagleBone_lowlevel: mpu6050_lib.h and mpu6050_kdd_primitives.{h,c},
-- over the register accesses of the bus driver as an interface.
pub mod Regs
pub mod Config
pub mod Convert
pub mod Bus
pub mod Device
pub mod Fifo
pub mod Driver
pub mod Probe
pub mod Message
