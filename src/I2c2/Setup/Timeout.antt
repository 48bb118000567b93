-- ===== src/I2c2/Setup/Timeout.antt =====
-- The clock loop of `i2c2_ll_init` has 1000 rounds, and the test behind it takes the last of them
-- for a timeout.
use linux_device_drivers_hw.Base.{
  ℕ, zero, suc, ◌+◌, ◌-◌, ◌*◌, ◌<◌, ◌≤◌, true, false, ◌≡◌, ap, ◌∙◌, ℤ, pos, is_pos, arith,
}
use linux_device_drivers_hw.Base.Errno.{etimedout}
use linux_device_drivers_hw.I2c2.Regs.{clkctrl}
use linux_device_drivers_hw.I2c2.State.{Hw, Ll, cm_r, cm_w, udelay}
use linux_device_drivers_hw.I2c2.Clock.{is_functional, set_mode}
use linux_device_drivers_hw.I2c2.Setup.{poll_enable, enable_clk, map_i2c2, map_bases, init}

-- The module is not functional at the moments from `t` on and before `m`.
abbrev pub OffUntil : Hw → ℕ → ℕ → Type 0
OffUntil hw t m = (i : ℕ) → t ≤ i → i < m → is_functional (hw.reply i clkctrl) ≡ false

poll_enable-first :
    (n k m : ℕ) (s : Ll)
    → m ≡ s.hw.now + 2 * k
    → k < n
    → OffUntil s.hw s.hw.now m
    → is_functional (s.hw.reply m clkctrl) ≡ true
    → (poll_enable n s).0 ≡ pos (n - k - 1)
unfolding poll_enable
poll_enable-first zero k m s p lt off on = absurd (omega arith)
poll_enable-first (suc n) zero m s p lt off on = ground arith
poll_enable-first (suc n) (suc k) m s p lt off on = ground (
  arith,
  off s.hw.now (omega arith) (omega arith),
  poll_enable-first n k m (udelay 10 (cm_r s).1).1 (ground arith) (omega arith)
      (λ i ge below. off i (ground arith) below) on,
)

-- The clock polls of `i2c2_ll_init` count down from 1000: when the module is first functional at
-- poll k, below 1000, the counter behind the loop is 999 - k.
enable_clk_lem :
    (k m : ℕ) (s : Ll)
    → m ≡ s.hw.now + 2 + 2 * k
    → k < 1000
    → OffUntil s.hw (s.hw.now + 2) m
    → is_functional (s.hw.reply m clkctrl) ≡ true
    → (enable_clk s).0 ≡ pos (999 - k)
unfolding enable_clk cm_r cm_w
enable_clk_lem k m s p lt off on =
    let t = (cm_w (set_mode (cm_r s).0) (cm_r s).1).1 in
    poll_enable-first 1000 k m t (omega arith) lt (λ i ge below. off i (omega arith) below) on
    ∙ ap pos (omega arith)

-- When the module is first functional at the last of the 1000 polls, `i2c2_ll_init`, called while
-- not initialised, with a valid interrupt and both blocks mapped, still returns -ETIMEDOUT.
pub init_late :
    (khz : ℕ) (irq : ℤ) (m : ℕ) (s : Ll)
    → s.g_i2c2_ready ≡ false
    → is_pos irq ≡ true
    → s.cm_per_base ≡ true
    → s.i2c2_base ≡ true
    → m ≡ s.hw.now + 2000
    → OffUntil s.hw (s.hw.now + 2) m
    → is_functional (s.hw.reply m clkctrl) ≡ true
    → (init khz irq s).0 ≡ etimedout
unfolding init map_bases map_i2c2
init_late khz irq m s n p c i e off on =
    ground (
      arith,
      enable_clk_lem 999 m (record s { g_i2c2_irq = irq }) (omega arith) (omega arith) off on,
    )
