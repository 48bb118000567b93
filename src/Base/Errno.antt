-- ===== src/Base/Errno.antt =====
-- The negated error numbers of <asm-generic/errno-base.h> and <errno.h> that the drivers return.
use linux_device_drivers_hw.Base.Int.{ℤ, negsuc}

-- -ENXIO: a NACK on the bus
abbrev pub enxio : ℤ
enxio = negsuc 5

-- -EIO
abbrev pub eio : ℤ
eio = negsuc 4

-- -EAGAIN: arbitration lost
abbrev pub eagain : ℤ
eagain = negsuc 10

-- -ENOMEM
abbrev pub enomem : ℤ
enomem = negsuc 11

-- -EFAULT
abbrev pub efault : ℤ
efault = negsuc 13

-- -EBUSY
abbrev pub ebusy : ℤ
ebusy = negsuc 15

-- -ENODEV
abbrev pub enodev : ℤ
enodev = negsuc 18

-- -EINVAL
abbrev pub einval : ℤ
einval = negsuc 21

-- -ETIMEDOUT
abbrev pub etimedout : ℤ
etimedout = negsuc 109
