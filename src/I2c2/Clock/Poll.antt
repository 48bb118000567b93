-- ===== src/I2c2/Clock/Poll.antt =====
-- The polling loops: they succeed exactly when a poll finds what they wait for, and give up after
-- their fixed number of rounds. A round is a read and a delay, two moments.
use linux_device_drivers_hw.Base.{
  ℕ, zero, suc, ◌+◌, ◌*◌, ◌<◌, Bool, true, false, ◌&&◌, ◌≡◌, refl, ◌⊎◌, ◌↔◌, inl, inr, pos, arith,
  Bool-cases, test_bit, is_pos, ◌∷◌,
}
use linux_device_drivers_hw.Base.Errno.{etimedout, ebusy}
use linux_device_drivers_hw.I2c2.Regs.{clkctrl, irqstatus_raw}
use linux_device_drivers_hw.I2c2.Regs.IrqBit
use linux_device_drivers_hw.I2c2.State.{Hw, rd, Ll, i2c_r, cm_r, cm_w, udelay}
use linux_device_drivers_hw.I2c2.Clock.Quiet.{ensure_clk-Quiet}
use linux_device_drivers_hw.I2c2.Clock.{
  is_functional, is_enabled, set_mode, poll_clk, poll_bus, clk_is_on, ensure_clk, wait_bus_free,
  dump_state,
}

-- A poll of the clock among the next `n`, the first at moment `t`, finds the module functional.
abbrev ClkComes : Hw → ℕ → ℕ → Type 0
ClkComes hw t n = (k : ℕ) × (k < n) × (is_functional (hw.reply (t + 2 * k) clkctrl) ≡ true)

-- A poll of the bus among the next `n` finds it free.
abbrev BusFrees : Hw → ℕ → ℕ → Type 0
BusFrees hw t n =
    (k : ℕ) × (k < n) × (test_bit (hw.reply (t + 2 * k) irqstatus_raw) IrqBit.bb ≡ false)

-- `m` is the moment of the poll that finds it.
poll_clk-comes :
    (n k m : ℕ) (s : Ll)
    → m ≡ s.hw.now + 2 * k
    → k < n
    → is_functional (s.hw.reply m clkctrl) ≡ true
    → (poll_clk n s).0 ≡ pos 0
unfolding poll_clk
poll_clk-comes zero k m s p h e = absurd (omega arith)
poll_clk-comes (suc n) zero m s p h e = ground arith
poll_clk-comes (suc n) (suc k) m s p h e =
    ground (arith, poll_clk-comes n k m (udelay 10 (cm_r s).1).1)

-- The poll that a successful loop ended with.
poll_clk-found :
    (n : ℕ) (s : Ll)
    → (poll_clk n s).0 ≡ pos 0
    → (k : ℕ) × (m : ℕ) × (k < n)
      × (m ≡ s.hw.now + 2 * k)
      × (is_functional (s.hw.reply m clkctrl) ≡ true)
unfolding poll_clk
poll_clk-found zero s e = cc
poll_clk-found (suc n) s e = elim (Bool-cases (is_functional (s.hw.reply s.hw.now clkctrl))) [
  | inl on ↦ (0, s.hw.now, omega arith, omega arith, on)
  | inr off ↦
      let (k, m, lt, at, on) = poll_clk-found n (udelay 10 (cm_r s).1).1 (ground arith) in
      (suc k, m, omega arith, ground arith, on)
]

poll_clk-ends : (n : ℕ) (s : Ll) → ((poll_clk n s).0 ≡ pos 0) ⊎ ((poll_clk n s).0 ≡ etimedout)
unfolding poll_clk
poll_clk-ends zero s = inr refl
poll_clk-ends (suc n) s = ground (arith, poll_clk-ends n (udelay 10 (cm_r s).1).1)

poll_bus-frees :
    (n k m : ℕ) (s : Ll)
    → m ≡ s.hw.now + 2 * k
    → k < n
    → test_bit (s.hw.reply m irqstatus_raw) IrqBit.bb ≡ false
    → (poll_bus n s).0 ≡ pos 0
unfolding poll_bus
poll_bus-frees zero k m s p h e = absurd (omega arith)
poll_bus-frees (suc n) zero m s p h e = ground arith
poll_bus-frees (suc n) (suc k) m s p h e =
    ground (arith, poll_bus-frees n k m (udelay 20 (i2c_r irqstatus_raw s).1).1)

poll_bus-found :
    (n : ℕ) (s : Ll)
    → (poll_bus n s).0 ≡ pos 0
    → (k : ℕ) × (m : ℕ) × (k < n)
      × (m ≡ s.hw.now + 2 * k)
      × (test_bit (s.hw.reply m irqstatus_raw) IrqBit.bb ≡ false)
unfolding poll_bus
poll_bus-found zero s e = cc
poll_bus-found (suc n) s e =
    elim (Bool-cases (test_bit (s.hw.reply s.hw.now irqstatus_raw) IrqBit.bb)) [
      | inr off ↦ (0, s.hw.now, omega arith, omega arith, off)
      | inl on ↦
          let (k, m, lt, at, off) =
            poll_bus-found n (udelay 20 (i2c_r irqstatus_raw s).1).1 (ground arith) in
          (suc k, m, omega arith, ground arith, off)
    ]

poll_bus-ends : (n : ℕ) (s : Ll) → ((poll_bus n s).0 ≡ pos 0) ⊎ ((poll_bus n s).0 ≡ ebusy)
unfolding poll_bus
poll_bus-ends zero s = inr refl
poll_bus-ends (suc n) s = ground (arith, poll_bus-ends n (udelay 20 (i2c_r irqstatus_raw s).1).1)

-- The module clock is on: enabled and functional.
abbrev is_on : ℕ → Bool
is_on v = is_functional v && is_enabled v

-- Behind the first read of `ensure_clk`, which found the module off, and the enabling write.
abbrev enabled : Ll → Ll
enabled s = (cm_w (set_mode (s.hw.reply s.hw.now clkctrl)) (cm_r s).1).1

ensure_clk-off :
    (s : Ll)
    → s.cm_per_base ≡ true
    → is_on (s.hw.reply s.hw.now clkctrl) ≡ false
    → ensure_clk s ≡ poll_clk 200 (enabled s)
unfolding ensure_clk
ensure_clk-off s h off = ground arith

ensure_clk-on :
    (s : Ll)
    → s.cm_per_base ≡ true
    → is_on (s.hw.reply s.hw.now clkctrl) ≡ true
    → (ensure_clk s).0 ≡ pos 0
unfolding ensure_clk
ensure_clk-on s h on = ground arith

-- `i2c2_ensure_clk` with the CM_PER block mapped succeeds exactly when the module clock is on at
-- the first read, or one of the 200 polls behind the enabling write finds it functional; in every
-- other case it returns -ETIMEDOUT.
ensure_clk_lem :
    (s : Ll)
    → s.cm_per_base ≡ true
    → (((ensure_clk s).0 ≡ pos 0)
        ↔ (is_on (s.hw.reply s.hw.now clkctrl) ≡ true) ⊎ ClkComes s.hw (s.hw.now + 2) 200)
      × (((ensure_clk s).0 ≡ pos 0) ⊎ ((ensure_clk s).0 ≡ etimedout))
unfolding cm_r cm_w
ensure_clk_lem s h = elim (Bool-cases (is_on (s.hw.reply s.hw.now clkctrl))) [
  | inl on ↦ ((λ e. inl on, λ c. ensure_clk-on s h on), inl (ensure_clk-on s h on))
  | inr off ↦ rw (ensure_clk-off s h off) (
    (
      λ e. let (k, m, lt, at, on) = poll_clk-found 200 (enabled s) e in inr (k, lt, ground arith),
      λ c. elim c [
        | inl on ↦ ground arith
        | inr (k, lt, on) ↦
            poll_clk-comes 200 k (s.hw.now + 2 + 2 * k) (enabled s) (omega arith) lt on
      ],
    ),
    poll_clk-ends 200 (enabled s),
  )
]

wait_bus_free-ready :
    (s : Ll)
    → s.i2c2_base ≡ true
    → (ensure_clk s).0 ≡ pos 0
    → wait_bus_free s ≡ poll_bus 4000 (ensure_clk s).1
unfolding wait_bus_free
wait_bus_free-ready s h ok = ground arith

-- `i2c2_wait_bus_free` on a mapped controller whose clock comes up succeeds exactly when one of the
-- 4000 polls of the bus-busy bit finds the bus free, and returns -EBUSY in every other case.
wait_bus_free_lem :
    (s : Ll)
    → s.i2c2_base ≡ true
    → (ensure_clk s).0 ≡ pos 0
    → (((wait_bus_free s).0 ≡ pos 0) ↔ BusFrees s.hw (ensure_clk s).1.hw.now 4000)
      × (((wait_bus_free s).0 ≡ pos 0) ⊎ ((wait_bus_free s).0 ≡ ebusy))
wait_bus_free_lem s h ok =
    let t = (ensure_clk s).1 in
    let same = (ensure_clk-Quiet s).same_reply in
    rw (wait_bus_free-ready s h ok) (
      (
        λ e. let (k, m, lt, at, off) = poll_bus-found 4000 t e in (k, lt, ground (arith, same)),
        λ c.
            let (k, lt, off) = c in
            poll_bus-frees 4000 k (t.hw.now + 2 * k) t refl lt (ground (arith, same)),
      ),
      poll_bus-ends 4000 t,
    )

-- The guards return 0 or a negative error number.
pub ensure_clk-code : (s : Ll) → is_pos (ensure_clk s).0 ≡ false
unfolding ensure_clk
ensure_clk-code s = ground (arith, poll_clk-ends 200 (enabled s))

pub wait_bus_free-code : (s : Ll) → is_pos (wait_bus_free s).0 ≡ false
unfolding wait_bus_free
wait_bus_free-code s = ground (arith, ensure_clk-code s, poll_bus-ends 4000 (ensure_clk s).1)

-- With both blocks mapped and the module clock off, `i2c2_ll_dump_state` reads the clock register
-- and touches nothing else: no I2C register is accessed behind a gated clock.
dump_state-gated :
    (s : Ll)
    → s.cm_per_base ≡ true
    → s.i2c2_base ≡ true
    → is_on (s.hw.reply s.hw.now clkctrl) ≡ false
    → (dump_state s).1.hw.trace ≡ rd clkctrl (s.hw.reply s.hw.now clkctrl) ∷ s.hw.trace
unfolding dump_state clk_is_on
dump_state-gated s c m off = ground arith
