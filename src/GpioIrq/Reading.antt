-- ===== src/GpioIrq/Reading.antt =====
-- The text that dev_read of gpio_irq.c hands to simple_read_from_buffer.
use linux_device_drivers_hw.Base.{
  ℕ, ◌^◌, ◌<◌, ◌≡◌, ◌++◌, arith, length-append, take_whole, Text, codes, decimal, decimal-length,
  fitted,
}

-- dev_read: the snapshot of the count, printed into 64 bytes.
unfoldable pub dev_read_text : ℕ → Text
dev_read_text local_count = fitted 64 (codes "IRQ count: " ++ (decimal local_count ++ codes "\n"))

-- The text of a 32-bit count is not cut off.
dev_read_text_lem :
    (n : ℕ) → n < 2 ^ 32 → dev_read_text n ≡ codes "IRQ count: " ++ (decimal n ++ codes "\n")
unfolding dev_read_text
dev_read_text_lem n h =
    take_whole 63 (codes "IRQ count: " ++ (decimal n ++ codes "\n"))
      (omega (arith, length-append {0}, decimal-length n 9 (omega arith)))
