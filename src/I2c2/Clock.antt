-- ===== src/I2c2/Clock.antt =====
-- The clock and bus guards of i2c2_ll.c: enabling and checking the module clock, waiting for a free
-- bus, forcing the controller idle, and the register dump.
pub mod Quiet
pub mod Poll
use linux_device_drivers_hw.Base.{
  ℕ, zero, suc, ◌+◌, ◌*◌, ◌/◌, ◌%◌, ◌^◌, Bool, true, false, not, ◌&&◌, ◌||◌, ℤ, pos, is_zero,
  if◌then◌else◌, ◌==◌, test_bit,
}
use linux_device_drivers_hw.Base.Errno.{enodev, etimedout, ebusy}
use linux_device_drivers_hw.I2c2.Regs.{
  irqstatus_raw, irqstatus, irqenable_set, cnt, i2c_data, con, sa,
}
use linux_device_drivers_hw.I2c2.Regs.Con
use linux_device_drivers_hw.I2c2.Regs.IrqBit
use linux_device_drivers_hw.I2c2.State.{
  idle, M, pure, ◌>>=◌, ◌>>◌, i2c_r, i2c_w, cm_r, cm_w, udelay, set_xfer,
}

-- `((v >> 16) & 0x3U) == 0`: the module is functional.
abbrev pub is_functional : ℕ → Bool
is_functional v = (v / 2 ^ 16) % 4 == 0

-- `(v & 0x3U) != 0`: the module is enabled.
abbrev pub is_enabled : ℕ → Bool
is_enabled v = not (v % 4 == 0)

-- `v &= ~0x3U`
abbrev clear_mode : ℕ → ℕ
clear_mode v = v / 4 * 4

-- `v &= ~0x3U; v |= 0x2U`
abbrev pub set_mode : ℕ → ℕ
set_mode v = v / 4 * 4 + 2

unfoldable pub disable_clk : M (Unit {0})
unfolding cm_r cm_w
disable_clk s = if not s.cm_per_base then (tt, s) else (do v ← cm_r; cm_w (clear_mode v)) s

unfoldable pub clk_is_on : M Bool
unfolding cm_r
clk_is_on s =
    if not s.cm_per_base
    then (false, s)
    else (do v ← cm_r; pure (is_functional v && is_enabled v)) s

-- The polling loop with `timeout` rounds left.
unfoldable pub poll_clk : ℕ → M ℤ
unfolding cm_r udelay
poll_clk zero s = (etimedout, s)
poll_clk (suc timeout) s =
    let (v, s1) = cm_r s in
    elim (is_functional v) [ true ↦ (pos 0, s1) | false ↦ poll_clk timeout (udelay 10 s1).1 ]

unfoldable pub ensure_clk : M ℤ
unfolding cm_r cm_w
ensure_clk s =
    if not s.cm_per_base
    then (enodev, s)
    else (do
      v ← cm_r
      if is_functional v && is_enabled v
          then pure (pos 0)
          else (do cm_w (set_mode v); poll_clk 200))
        s

unfoldable pub poll_bus : ℕ → M ℤ
unfolding i2c_r udelay
poll_bus zero s = (ebusy, s)
poll_bus (suc timeout) s =
    let (v, s1) = i2c_r irqstatus_raw s in
    elim (test_bit v IrqBit.bb) [ false ↦ (pos 0, s1) | true ↦ poll_bus timeout (udelay 20 s1).1 ]

unfoldable pub wait_bus_free : M ℤ
wait_bus_free s =
    if not s.i2c2_base
    then (enodev, s)
    else (do rc ← ensure_clk; if is_zero rc then poll_bus 4000 else pure rc) s

unfoldable pub force_idle : M (Unit {0})
unfolding i2c_w udelay
force_idle s =
    if not s.i2c2_base
    then (tt, s)
    else (do
      rc ← ensure_clk
      if is_zero rc
          then (do
            i2c_w con 0
            udelay 10
            i2c_w irqstatus 0xffff
            (λ t. set_xfer (record (t.g_xfer) { phase = idle }) t)
            i2c_w con Con.en
            udelay 10)
          else pure tt)
        s

-- The values go to the kernel log only.
unfoldable pub dump_state : M (Unit {0})
unfolding i2c_r
dump_state s =
    if not s.i2c2_base || not s.cm_per_base
    then (tt, s)
    else (do
      on ← clk_is_on
      if not on then pure tt else (do
        _ ← i2c_r con
        _ ← i2c_r sa
        _ ← i2c_r cnt
        _ ← i2c_r i2c_data
        _ ← i2c_r irqstatus
        _ ← i2c_r irqstatus_raw
        _ ← i2c_r irqenable_set
        pure tt))
        s
