-- ===== src/I2c2/Setup.antt =====
-- i2c2_ll_init, i2c2_ll_deinit and i2c2_ll_is_initialized.
pub mod Resources
pub mod Timeout
pub mod Ready
use linux_device_drivers_hw.Base.{
  ℕ, zero, suc, ◌+◌, ◌-◌, ◌^◌, Bool, true, false, not, none, ℤ, pos, negsuc, is_zero, is_pos,
  if◌then◌else◌, leb, ◌==◌, test_bit,
}
use linux_device_drivers_hw.Base.Errno.{etimedout, einval, enomem}
use linux_device_drivers_hw.I2c2.Regs.{
  sysc, irqstatus, irqenable_set, syss, fifo_buf, con, oa, psc, scll, sclh,
}
use linux_device_drivers_hw.I2c2.Regs.Con
use linux_device_drivers_hw.I2c2.State.{
  idle, Ll, M, pure, ◌>>=◌, ◌>>◌, i2c_r, i2c_w, cm_r, cm_w, udelay, set_xfer,
}
use linux_device_drivers_hw.I2c2.Clock.{is_functional, set_mode, disable_clk}

-- `ioremap`: true is a mapping, false is NULL.
unfoldable pub ioremap : M Bool
ioremap s =
    let ok = s.hw.ioremap_ok s.hw.now in
    (
      ok,
      record s {
        hw = record (s.hw) { now = s.hw.now + 1; maps = if ok then s.hw.maps + 1 else s.hw.maps };
      },
    )

unfoldable iounmap : M (Unit {0})
iounmap s = (tt, record s { hw = record (s.hw) { maps = s.hw.maps - 1 } })

abbrev set_cm : Bool → M (Unit {0})
set_cm b s = (tt, record s { cm_per_base = b })

abbrev set_i2c2 : Bool → M (Unit {0})
set_i2c2 b s = (tt, record s { i2c2_base = b })

-- Maps the I2C2 registers if they are not mapped; on failure the CM_PER mapping goes too.
unfoldable pub map_i2c2 : M Bool
unfolding ioremap iounmap
map_i2c2 s =
    if s.i2c2_base
    then (true, s)
    else (do
      ok ← ioremap
      if ok then (do set_i2c2 true; pure true) else (do iounmap; set_cm false; pure false))
        s

unfoldable pub map_bases : M Bool
unfolding map_i2c2
map_bases s =
    if s.cm_per_base
    then map_i2c2 s
    else (do ok ← ioremap; if ok then (do set_cm true; map_i2c2) else pure false) s

-- `while (timeout-- > 0) { ...; if (functional) break; udelay(10); }`: the result is the value of
-- `timeout` behind the loop, -1 when the loop ran out.
unfoldable pub poll_enable : ℕ → M ℤ
unfolding cm_r udelay
poll_enable zero s = (negsuc 0, s)
poll_enable (suc timeout) s =
    let (v, s1) = cm_r s in
    elim (is_functional v) [
      | true ↦ (pos timeout, s1)
      | false ↦ poll_enable timeout (udelay 10 s1).1
    ]

-- The same loop over SYSS.RDONE; running out of it is only logged.
unfoldable pub poll_reset : ℕ → M (Unit {0})
unfolding i2c_r udelay
poll_reset zero s = (tt, s)
poll_reset (suc timeout) s =
    let (v, s1) = i2c_r syss s in
    elim (test_bit v 0) [ true ↦ (tt, s1) | false ↦ poll_reset timeout (udelay 10 s1).1 ]

-- The prescaler and the two halves of the clock, by the bus frequency in kHz.
unfoldable pub set_speed : ℕ → M (Unit {0})
unfolding i2c_w
set_speed khz =
    if leb 400 khz
    then (do i2c_w psc 3; i2c_w scll 10; i2c_w sclh 12)
    else (do i2c_w psc 23; i2c_w scll 53; i2c_w sclh 55)

-- Reset, and the registers as they are programmed before the handler is registered.
unfoldable pub program : ℕ → M (Unit {0})
unfolding i2c_w udelay
program khz = do
  i2c_w sysc (2 ^ 1)
  poll_reset 100
  i2c_w con 0
  udelay 10
  set_speed khz
  i2c_w oa 0x01
  i2c_w fifo_buf 0x0000
  i2c_w irqstatus 0xffff
  i2c_w irqenable_set (2 ^ 4 + 2 ^ 3 + 2 ^ 2 + 2 ^ 1 + 2 ^ 0)
  i2c_w con Con.en
  udelay 50
  set_xfer (record { phase = idle; error = pos 0; buf = none; len = 0; idx = 0; done = 0 })

unfoldable pub request_irq : M ℤ
request_irq s =
    let ret = s.hw.request_ret s.hw.now in
    (
      ret,
      record s {
        hw = record (s.hw) {
          now = s.hw.now + 1;
          handlers = if is_zero ret then s.hw.handlers + 1 else s.hw.handlers;
        };
      },
    )

unfoldable pub free_irq : M (Unit {0})
free_irq s = (tt, record s { hw = record (s.hw) { handlers = s.hw.handlers - 1 } })

unfoldable set_ready : Bool → M (Unit {0})
set_ready b s = (tt, record s { g_i2c2_ready = b })

abbrev set_irq : ℤ → M (Unit {0})
set_irq irq s = (tt, record s { g_i2c2_irq = irq })

-- Registers the handler, or takes everything down again.
unfoldable pub attach : M ℤ
unfolding request_irq i2c_w iounmap set_ready
attach = do
  ret ← request_irq
  if is_zero ret
      then (do set_ready true; pure (pos 0))
      else (do i2c_w con 0; disable_clk; iounmap; set_i2c2 false; iounmap; set_cm false; pure ret)

-- Step 1 of the initialisation: the module clock.
unfoldable pub enable_clk : M ℤ
unfolding cm_r cm_w
enable_clk = do v ← cm_r; cm_w (set_mode v); poll_enable 1000

unfoldable pub init : ℕ → ℤ → M ℤ
init bus_khz irq s =
    if s.g_i2c2_ready
    then (pos 0, s)
    else if not (is_pos irq)
    then (einval, s)
    else (do
      set_irq irq
      mapped ← map_bases
      if not mapped then pure enomem else (do
        timeout ← enable_clk
        if not (is_pos timeout)
            then pure etimedout
            else (do program (if bus_khz == 0 then 100 else bus_khz); attach)))
        s

-- The teardown behind the guard of `deinit`.
unfoldable pub release : M (Unit {0})
unfolding free_irq i2c_w iounmap set_ready
release s =
    (do
      (if is_pos s.g_i2c2_irq then free_irq else pure tt)
      (if s.i2c2_base then i2c_w con 0 else pure tt)
      disable_clk
      (if s.i2c2_base then iounmap else pure tt)
      (if s.cm_per_base then iounmap else pure tt)
      set_i2c2 false
      set_cm false
      set_irq (negsuc 0)
      set_ready false)
      s

unfoldable pub deinit : M (Unit {0})
deinit s = if not s.g_i2c2_ready then (tt, s) else release s

unfoldable is_initialized : Ll → Bool
is_initialized s = s.g_i2c2_ready
