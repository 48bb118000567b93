-- ===== src/Tests/ButtonRuns.antt =====
-- The button's driver across a wrap of the tick.
use linux_device_drivers_hw.Base.{ℕ, ◌+◌, ◌-◌, ◌^◌, refl, List, [], ◌∷◌, arith}
use linux_device_drivers_hw.GpioIrq.{Button}
use linux_device_drivers_hw.GpioIrq.Debounce.{Counter, presses, interrupts, Shows, interrupts-Shows}

-- Two moments on either side of the wrap, and one within the debounce time of the second.
abbrev moments : List ℕ
moments = (2 ^ 64 - 10) ∷ (2 ^ 64 + 60) ∷ (2 ^ 64 + 80) ∷ []

abbrev counter : Counter
counter = record { last = 2 ^ 64 - 100; count = 5 }

abbrev button : Button
button = record { last_jiffies = 2 ^ 64 - 100; irq_counter = 5 }

interrupts-Shows_example : Shows (presses 50 moments counter) (interrupts 50 moments button)
interrupts-Shows_example =
    interrupts-Shows 50 (2 ^ 64 + 100) moments (2 ^ 64 - 50) counter button (omega arith)
      (omega arith) (omega arith)
      (omega arith, omega arith, (omega arith, omega arith, (omega arith, omega arith, tt)))
      (record { last = refl; count = refl })
