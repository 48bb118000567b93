-- ===== src/GpioIrq.antt =====
-- 05_GPIO_IRQ/gpio_irq.c: a button's interrupt, debounced by the wrapping clock tick, the probe,
-- and the text that a reader gets.
pub mod Debounce
pub mod Probe
pub mod Reading
use linux_device_drivers_hw.Base.{
  ℕ, ◌+◌, ◌-◌, ◌%◌, ◌^◌, Bool, true, false, not, ℤ, pos, is_neg, is_zero, if◌then◌else◌, leb,
}

-- BITS_PER_LONG of a 64-bit kernel
abbrev pub long_bits : ℕ
long_bits = 64

-- `time_after(a, b)`: the difference b - a, wrapped to an unsigned long, is negative as a long.
unfoldable pub time_after : ℕ → ℕ → Bool
time_after a b =
    leb (2 ^ 63) ((b % 2 ^ long_bits + 2 ^ long_bits - a % 2 ^ long_bits) % 2 ^ long_bits)

-- The file's globals.
pub record Button : Type 0 where
  pub last_jiffies : ℕ
  pub irq_counter : ℕ

-- gpio_irq_handler at a tick, with the debounce time in ticks: the spin lock makes it one step.
unfoldable pub gpio_irq_handler : ℕ → ℕ → Button → Button
gpio_irq_handler window now b =
    if not (time_after now ((b.last_jiffies + window) % 2 ^ long_bits))
    then b
    else record { last_jiffies = now; irq_counter = (b.irq_counter + 1) % 2 ^ 32 }

-- What the driver has registered; the interrupt is managed, so that the driver core releases it.
pub record Binding : Type 0 where
  pub irq_requested : Bool
  pub misc_registered : Bool

-- platform_device_probe, with what platform_get_irq, devm_request_irq and misc_register return.
unfoldable pub platform_device_probe : ℤ → ℤ → ℤ → Binding → ℤ × Binding
platform_device_probe irq request_ret misc_ret b =
    let b1 = record b { irq_requested = true } in
    if is_neg irq
    then (irq, b)
    else if not (is_zero request_ret)
    then (request_ret, b)
    else if not (is_zero misc_ret)
    then (misc_ret, b1)
    else (pos 0, record b1 { misc_registered = true })

-- platform_device_remove
unfoldable pub platform_device_remove : Binding → Binding
platform_device_remove b = record b { misc_registered = false }
