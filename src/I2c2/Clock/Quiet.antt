-- ===== src/I2c2/Clock/Quiet.antt =====
-- The guards of the clock and the bus change nothing that the driver keeps, and never go through a
-- NULL base.
use linux_device_drivers_hw.Base.{ℕ, zero, suc, true, ◌≡◌, arith}
use linux_device_drivers_hw.I2c2.Regs.{Reg, irqstatus_raw}
use linux_device_drivers_hw.I2c2.State.{Ll, i2c_r, i2c_w, cm_r, cm_w, udelay}
use linux_device_drivers_hw.I2c2.Clock
use linux_device_drivers_hw.I2c2.Clock.{
  disable_clk, clk_is_on, poll_clk, ensure_clk, poll_bus, wait_bus_free, force_idle, dump_state,
}

-- From `s` to `t` only time has passed: `t` differs in the trace and in the moment.
pub record Quiet (s t : Ll) : Type 0 where
  pub same_cm : t.cm_per_base ≡ s.cm_per_base
  pub same_i2c2 : t.i2c2_base ≡ s.i2c2_base
  pub same_ready : t.g_i2c2_ready ≡ s.g_i2c2_ready
  pub same_irq : t.g_i2c2_irq ≡ s.g_i2c2_irq
  pub same_xfer : t.g_xfer ≡ s.g_xfer
  pub same_lock : t.locked ≡ s.locked
  pub same_reply : t.hw.reply ≡ s.hw.reply
  pub same_irqs : t.hw.irqs ≡ s.hw.irqs
  pub same_ioremap : t.hw.ioremap_ok ≡ s.hw.ioremap_ok
  pub same_request : t.hw.request_ret ≡ s.hw.request_ret
  pub same_maps : t.hw.maps ≡ s.hw.maps
  pub same_handlers : t.hw.handlers ≡ s.hw.handlers
  pub same_fault : t.hw.faulted ≡ s.hw.faulted

pub Quiet-refl : (s : Ll) → Quiet s s
Quiet-refl s = ground arith

Quiet-trans : (s t u : Ll) → Quiet s t → Quiet t u → Quiet s u
Quiet-trans s t u p q = ground arith

cm_r-Quiet : (s : Ll) → s.cm_per_base ≡ true → Quiet s (cm_r s).1
unfolding cm_r
cm_r-Quiet s h = ground arith

cm_w-Quiet : (v : ℕ) (s : Ll) → s.cm_per_base ≡ true → Quiet s (cm_w v s).1
unfolding cm_w
cm_w-Quiet v s h = ground arith

i2c_r-Quiet : (r : Reg) (s : Ll) → s.i2c2_base ≡ true → Quiet s (i2c_r r s).1
unfolding i2c_r
i2c_r-Quiet r s h = ground arith

i2c_w-Quiet : (r : Reg) (v : ℕ) (s : Ll) → s.i2c2_base ≡ true → Quiet s (i2c_w r v s).1
unfolding i2c_w
i2c_w-Quiet r v s h = ground arith

udelay-Quiet : (us : ℕ) (s : Ll) → Quiet s (udelay us s).1
unfolding udelay
udelay-Quiet us s = ground arith

-- One polling round, and then the rest of the loop.
poll_clk-Quiet : (n : ℕ) (s : Ll) → s.cm_per_base ≡ true → Quiet s (poll_clk n s).1
unfolding poll_clk
poll_clk-Quiet zero s h = Quiet-refl s
poll_clk-Quiet (suc n) s h = ground (arith, poll_clk-Quiet n (udelay 10 (cm_r s).1).1)

poll_bus-Quiet : (n : ℕ) (s : Ll) → s.i2c2_base ≡ true → Quiet s (poll_bus n s).1
unfolding poll_bus
poll_bus-Quiet zero s h = Quiet-refl s
poll_bus-Quiet (suc n) s h =
    ground (arith, poll_bus-Quiet n (udelay 20 (i2c_r irqstatus_raw s).1).1)

pub disable_clk-Quiet : (s : Ll) → Quiet s (disable_clk s).1
unfolding disable_clk
disable_clk-Quiet s = ground arith

pub ensure_clk-Quiet : (s : Ll) → Quiet s (ensure_clk s).1
unfolding ensure_clk
ensure_clk-Quiet s =
    ground (arith, poll_clk-Quiet 200 (cm_w (Clock.set_mode (cm_r s).0) (cm_r s).1).1)

pub wait_bus_free-Quiet : (s : Ll) → Quiet s (wait_bus_free s).1
unfolding wait_bus_free
wait_bus_free-Quiet s = ground (arith, ensure_clk-Quiet s, poll_bus-Quiet 4000 (ensure_clk s).1)

clk_is_on-Quiet : (s : Ll) → Quiet s (clk_is_on s).1
unfolding clk_is_on
clk_is_on-Quiet s = ground arith

pub dump_state-Quiet : (s : Ll) → Quiet s (dump_state s).1
unfolding dump_state
dump_state-Quiet s = ground (arith, clk_is_on-Quiet s)
