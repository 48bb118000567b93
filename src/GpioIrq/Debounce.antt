-- ===== src/GpioIrq/Debounce.antt =====
-- The debounce on the wrapping tick counts as one on a clock that never wraps.
use linux_device_drivers_hw.Base.{
  ℕ, ◌+◌, ◌%◌, ◌^◌, ◌≤◌, ◌≡◌, refl, arith, List, [], ◌∷◌, ltb, inl, inr, Bool-cases, if◌then◌else◌,
  if_keeps,
}
use linux_device_drivers_hw.GpioIrq.{long_bits, time_after, Button, gpio_irq_handler}

-- A debounced counter on a clock that never wraps.
pub record Counter : Type 0 where
  pub last : ℕ
  pub count : ℕ

abbrev pub press : ℕ → ℕ → Counter → Counter
press window now c =
    if ltb (c.last + window) now then record { last = now; count = c.count + 1 } else c

abbrev pub presses : ℕ → List ℕ → Counter → Counter
presses window [] c = c
presses window (t ∷ ts) c = presses window ts (press window t c)

-- The handler at moments, of which it sees the low bits.
abbrev pub interrupts : ℕ → List ℕ → Button → Button
interrupts window [] b = b
interrupts window (t ∷ ts) b = interrupts window ts (gpio_irq_handler window (t % 2 ^ long_bits) b)

-- The driver's state is the counter's with its wraps.
pub record Shows (c : Counter) (b : Button) : Type 0 where
  pub last : b.last_jiffies ≡ c.last % 2 ^ long_bits
  pub count : b.irq_counter ≡ c.count % 2 ^ 32

-- Moments in their order, from one on, and none behind an end.
abbrev Ascends : ℕ → ℕ → List ℕ → Type 0
Ascends low end [] = Unit
Ascends low end (t ∷ ts) = (low ≤ t) × (t ≤ end) × Ascends t end ts

time_after_lem :
    (window last now : ℕ)
    → window ≤ 2 ^ 62
    → last ≤ now
    → now ≤ last + 2 ^ 63
    → time_after (now % 2 ^ long_bits) ((last % 2 ^ long_bits + window) % 2 ^ long_bits)
      ≡ ltb (last + window) now
unfolding time_after
time_after_lem window last now w l h = ground arith

handler-Shows :
    (window now : ℕ) (c : Counter) (b : Button)
    → window ≤ 2 ^ 62
    → c.last ≤ now
    → now ≤ c.last + 2 ^ 63
    → Shows c b
    → Shows (press window now c) (gpio_irq_handler window (now % 2 ^ long_bits) b)
unfolding gpio_irq_handler
handler-Shows window now c b w l h v =
    let e : time_after (now % 2 ^ long_bits) ((b.last_jiffies + window) % 2 ^ long_bits)
        ≡ ltb (c.last + window) now =
      rw v.last (time_after_lem window c.last now w l h) in
    elim (Bool-cases (ltb (c.last + window) now)) [
      | inl y ↦ simp (e, y) (record { last = refl; count = omega (arith, v.count) })
      | inr n ↦ simp (e, n) v
    ]

press-last : (window now : ℕ) (c : Counter) → c.last ≤ now → (press window now c).last ≤ now
press-last window now c h =
    if_keeps (λ (t : Counter). t.last ≤ now) (ltb (c.last + window) now) (λ _. omega arith) (λ _. h)

press-first : (window now : ℕ) (c : Counter) → c.last ≤ now → c.last ≤ (press window now c).last
press-first window now c h =
    if_keeps (λ (t : Counter). c.last ≤ t.last) (ltb (c.last + window) now) (λ _. h)
      (λ _. omega arith)

-- With a debounce time of at most 2^62 ticks, and interrupts in their order within 2^63 ticks from
-- the last counted one, the driver on its wrapping 64-bit tick keeps the state of a debounced
-- counter on a clock that never wraps: a press counts exactly when it comes more than the debounce
-- time after the last counted one.
pub interrupts-Shows :
    (window end : ℕ) (ts : List ℕ) (low : ℕ) (c : Counter) (b : Button)
    → window ≤ 2 ^ 62
    → c.last ≤ low
    → end ≤ c.last + 2 ^ 63
    → Ascends low end ts
    → Shows c b
    → Shows (presses window ts c) (interrupts window ts b)
interrupts-Shows window end [] low c b w l h a v = v
interrupts-Shows window end (t ∷ ts) low c b w l h (first, last, rest) v =
    let k : c.last ≤ t = omega arith in
    interrupts-Shows window end ts t (press window t c)
      (gpio_irq_handler window (t % 2 ^ long_bits) b) w (press-last window t c k)
      (omega (arith, press-first window t c k)) rest
      (handler-Shows window t c b w k (omega arith) v)
