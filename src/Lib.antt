-- ===== src/Lib.antt =====
-- Verification of the C code of the driver collection: the MPU6050 driver of 09_BeagleBone_lowlevel
-- with its own I2C controller driver, its earlier stages on the kernel's bus in 08_BeagleBone_pdev,
-- 07_BeagleBone and 06_I2C_w_IRQ_MPU6050, the producer that takes its samples to the server, the
-- server itself, the button driver of 05_GPIO_IRQ, the pressure sensor of 04_I2C, and the display
-- drivers of 01_GPIO, 02_GPIO_Timer and 03_GPIO_DeviceTree.
--
-- The program. 09_BeagleBone_lowlevel/i2c2_ll.c drives the I2C2 controller of the AM335x by
-- interrupts: a transfer primes a shared context, starts the controller, and waits for a
-- completion, while the interrupt handler moves the bytes. mpu6050_kdd_primitives.c configures the
-- MPU6050 sensor and reads its FIFO through the register accesses of that driver. mpu6050_core.c is
-- the platform driver: its probe brings both up and registers a character device, its interrupt
-- thread publishes samples. 08_BeagleBone_pdev/mpu6050_core.c is an earlier stage over the SMBus
-- functions of the kernel's I2C core, whose probe registers a platform device for the character
-- device; 07_BeagleBone and 06_I2C_w_IRQ_MPU6050 hold the same primitives and handlers, with a misc
-- device for the readers. server_for_mpu6050/c_server/producer.c reads such a device in a loop and
-- puts the samples and their average into shared memory. server_for_mpu6050/c_server/server.c reads
-- them from there: a thread copies them into a cache under a new version each time, main accepts
-- clients up to a limit and starts a thread for each, and conn_handler answers one, with a page,
-- with JSON, or with a stream of events that waits for each new version. 05_GPIO_IRQ/gpio_irq.c
-- counts the presses of a button, debounced by the kernel's wrapping tick. 04_I2C/i2c_bmp280.c
-- probes a BMP280, and computes and prints its temperature and pressure. 01_GPIO/gpio_7seg.c shows
-- the digit that is written to it on a seven-segment display, 02_GPIO_Timer/gpio_7seg_timer.c two
-- digits on two displays in turn, and 03_GPIO_DeviceTree/gpio_7seg_dtree.c does so with lines and
-- polarities from the device tree.
--
-- The model. State is passed explicitly. I2c2/State.antt holds the globals of i2c2_ll.c and the
-- hardware: what a register reads at each moment, which interrupts come during a wait, and what
-- ioremap and request_irq return are functions of the moment, so that a theorem over all states is
-- one over all behaviours of the hardware. Every access is an event of a trace, and time is the
-- number of events.
--   I2c2/Isr.antt       i2c2_irq_handler, by its parts
--   I2c2/Clock.antt     i2c2_ensure_clk, i2c2_wait_bus_free, i2c2_force_idle, i2c2_ll_dump_state
--   I2c2/Transfer.antt  i2c2_start_transfer, i2c2_ll_write_byte, i2c2_ll_read_byte,
--                       i2c2_ll_read_block
--   I2c2/Setup.antt     i2c2_ll_init, i2c2_ll_deinit
--   Mpu6050/Bus.antt    what the sensor's driver uses of the bus, as an interface (RegBus), and the
--                       I2C2 controller as an implementation of it
--   Mpu6050/Regs.antt, Mpu6050/Config.antt and Mpu6050/Convert.antt
--                       mpu6050_lib.h, and mpu6050_kdd_raw_to_sample_fixed
--   Mpu6050/Device.antt mpu6050_kdd_init, mpu6050_kdd_reset and the register accesses
--   Mpu6050/Fifo.antt   mpu6050_read_fifo_bytes, mpu6050_read_fifo_samples
--   Mpu6050/Driver.antt the interrupt thread of mpu6050_core.c
--   Mpu6050/Probe.antt  mpu_platform_probe and mpu_platform_remove
--   Mpu6050/Message.antt
--                       mpu6050_kdd_print_msg and dev_read of mpu6050_core.c
--   Kdd.antt and Kdd/Fifo.antt
--                       mpu6050_kdd_primitives.c of 08_BeagleBone_pdev, over the I2C core as an
--                       interface (I2cCore) with the signs and sizes of what it returns as its laws
--   Pdev.antt           the probe and the removal of 08_BeagleBone_pdev/mpu6050_core.c
--   Pdev/Driver.antt    its globals, init_mpu6050, remove_mpu6050, and the two interrupt handlers
--   Pdev/Binding.antt   its life as a step relation: devices come and go, interrupts at any moment
--   Misc.antt           the probe and the removal of 07_BeagleBone/mpu6050_core.c
--   Producer.antt       the ring with its average, the loop and the exits of main of producer.c
--   Producer/Device.antt and Producer/Stdio.antt
--                       the four lines that main of producer.c reads from the device, and
--                       fgets and sscanf
--   GpioIrq.antt        gpio_irq_handler, and the probe and the removal of gpio_irq.c
--   SevenSegment.antt   gpio_7seg.c: the digit table, dev_write, and the start and exit of the module
--   Strobe.antt         gpio_7seg_timer.c: dev_write and the strobe of the two displays
--   Strobe/Start.antt   the start and the exit of gpio_7seg_timer.c
--   Dtree.antt and Dtree/Start.antt
--                       gpio_7seg_dtree.c: dev_write and the strobe, and the probe and the removal
--   Bmp280.antt         i2c_bmp280.c: init_bmp280, the probe and the removal, read_raw_data
--   Bmp280/Compensate.antt and Bmp280/Text.antt
--                       compensate_data, and dev_read
--   Server/Config.antt  the configuration file and the signals of server.c
--   Server/Memory.antt  init_shared_memory, cleanup_shared_memory
--   Server/Cache.antt   data_reader_thread, get_cached_data, wait_for_new_data
--   Server/Respond.antt the request line, the routes and the answers of conn_handler
--   Server/Stream.antt  the event stream of conn_handler
--   Server/Connection.antt
--                       conn_handler as a whole, with the descriptors and the block that it holds
--   Server/Accept.antt and Server/Accept/Main.antt
--                       the accept loop of main, and main from its start to its exit
--   Server/Accept/Run.antt
--                       the main thread and its handlers as a step relation
-- Base holds the Boolean tests, arrays as lists, C integers, printed numbers and error numbers;
-- Tests holds the theorems at concrete inputs.
--
-- Loops and fuel. The polling loops of i2c2_ll.c count their own timeouts down and recurse on them.
-- The chunk loops of mpu6050_read_fifo_bytes, in 09_BeagleBone_lowlevel and in 08_BeagleBone_pdev,
-- have fuel, one more than the bytes asked for: a round that goes on takes at least one of them.
-- The interrupts of one wait are a finite list. The loops of the server that wait for others run
-- over lists of what they are woken by, and give no result while they still wait. Decimal printing
-- has fuel, one more than the number, which each digit divides by ten.
--
-- Not modelled: log messages; the arithmetic and the printing of floats, parameters of the producer
-- and the server; sample_str and avg_str of conn_handler, which are never sent; the text of the
-- primitives of 07_BeagleBone and 06_I2C_w_IRQ_MPU6050 a second time, since it is that of
-- 08_BeagleBone_pdev but for a log message; hello.c, which only logs; the Python client. A NULL
-- `dev` does not arise, since the callers pass a static object. Sleeping and locking have no effect
-- but that the transfer mutex is taken and released; the interrupt handler runs inside the waits.
-- The kernel's functions, kmalloc and the calls of the C library are parameters, but for sscanf's
-- `%s`, strcmp and the printf family on integers, which are written out. fgets and the sscanf of
-- floats in producer.c are parameters too, and Producer/Stdio.antt names what is asked of them.
pub mod Base
pub mod I2c2
pub mod Mpu6050
pub mod Kdd
pub mod Pdev
pub mod Misc
pub mod Producer
pub mod GpioIrq
pub mod SevenSegment
pub mod Strobe
pub mod Dtree
pub mod Server
pub mod Bmp280
pub mod Tests
