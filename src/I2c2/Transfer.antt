-- ===== src/I2c2/Transfer.antt =====
-- The transfers of i2c2_ll.c: the shared path of read and write, and the three register accesses.
pub mod Frame
pub mod Outcome
pub mod Range
pub mod Delivery
use linux_device_drivers_hw.Base.{
  ℕ, ◌+◌, ◌-◌, Bool, true, false, not, ◌||◌, List, [], ◌∷◌, Option, none, some, ℤ, pos, is_zero,
  if◌then◌else◌, ltb, ◌==◌, get_or,
}
use linux_device_drivers_hw.Base.Errno.{enodev, etimedout, einval}
use linux_device_drivers_hw.I2c2.Regs.{irqstatus, cnt, con, sa}
use linux_device_drivers_hw.I2c2.Regs.Con
use linux_device_drivers_hw.I2c2.State.{
  Phase, sending, receiving, M, pure, ◌>>=◌, ◌>>◌, i2c_w, set_xfer,
}
use linux_device_drivers_hw.I2c2.Isr.{run_irqs}
use linux_device_drivers_hw.I2c2.Clock.{ensure_clk, wait_bus_free, dump_state, force_idle}

abbrev pub is_null {ℓ} : {A : Type ℓ} → Option A → Bool
is_null none = true
is_null (some _) = false

-- `wait_for_completion_timeout`: the interrupts of the wait are served, and one completion is
-- consumed if there is any; otherwise the wait has timed out.
unfoldable pub wait_done : M Bool
wait_done s =
    let s1 = run_irqs (s.hw.irqs s.hw.now) s in
    let s2 = record s1 { hw = record (s1.hw) { now = s1.hw.now + 1 } } in
    if ltb 0 s2.g_xfer.done
    then (true, record s2 { g_xfer = record (s2.g_xfer) { done = s2.g_xfer.done - 1 } })
    else (false, s2)

-- The context of one transfer is primed and the controller started.
unfoldable pub begin_transfer : ℕ → Option (List ℕ) → ℕ → Phase → ℕ → M (Unit {0})
unfolding i2c_w
begin_transfer addr buf len phase con_flags = do
  set_xfer (record { phase = phase; error = pos 0; buf = buf; len = len; idx = 0; done = 0 })
  i2c_w irqstatus 0xffff
  i2c_w sa addr
  i2c_w cnt len
  i2c_w con con_flags

-- What happens after the wait, and the result.
unfoldable pub finish_transfer : Bool → M ℤ
unfolding i2c_w
finish_transfer completed =
    if completed
    then (λ s. (s.g_xfer.error, s))
    else (do dump_state; i2c_w irqstatus 0xffff; force_idle; pure etimedout)

-- The result, and what the caller's array holds at the return.
unfoldable pub start_transfer : ℕ → Option (List ℕ) → ℕ → Phase → ℕ → M (ℤ × Option (List ℕ))
start_transfer addr buf len phase con_flags =
    if len == 0 || is_null buf then pure (einval, buf) else (do
      rc ← ensure_clk
      if not (is_zero rc) then pure (rc, buf) else (do
        rc2 ← wait_bus_free
        if not (is_zero rc2) then pure (rc2, buf) else (do
          begin_transfer addr buf len phase con_flags
          completed ← wait_done
          ret ← finish_transfer completed
          (λ s. ((ret, s.g_xfer.buf), s)))))

unfoldable pub start_write : ℕ → Option (List ℕ) → ℕ → M (ℤ × Option (List ℕ))
start_write addr buf len =
    start_transfer addr buf len sending (Con.en + Con.mst + Con.trx + Con.stt + Con.stp)

unfoldable pub start_read : ℕ → Option (List ℕ) → ℕ → M (ℤ × Option (List ℕ))
start_read addr buf len =
    start_transfer addr buf len receiving (Con.en + Con.mst + Con.stt + Con.stp)

-- `mutex_lock(&g_xfer_lock)` and `mutex_unlock`
abbrev set_lock : Bool → M (Unit {0})
set_lock b s = (tt, record s { locked = b })

unfoldable pub write_byte : ℕ → ℕ → ℕ → M ℤ
write_byte addr reg val s =
    if not s.g_i2c2_ready
    then (enodev, s)
    else (do
      set_lock true
      r ← start_write addr (some (reg ∷ val ∷ [])) 2
      set_lock false
      pure r.0)
        s

abbrev first_byte : Option (List ℕ) → ℕ
first_byte none = 0
first_byte (some b) = get_or b 0 0

unfoldable pub read_byte : ℕ → ℕ → M ℤ
read_byte addr reg s =
    if not s.g_i2c2_ready
    then (enodev, s)
    else (do
      set_lock true
      w ← start_write addr (some (reg ∷ [])) 1
      if not (is_zero w.0) then (do set_lock false; pure w.0) else (do
        r ← start_read addr w.1 1
        set_lock false
        pure (if is_zero r.0 then pos (first_byte r.1) else r.0)))
        s

-- The result, and what the caller's array holds at the return.
unfoldable pub read_block : ℕ → ℕ → ℕ → Option (List ℕ) → M (ℤ × Option (List ℕ))
read_block addr reg len buf s =
    if not s.g_i2c2_ready
    then ((enodev, buf), s)
    else if is_null buf || len == 0
    then ((einval, buf), s)
    else (do
      set_lock true
      w ← start_write addr (some (reg ∷ [])) 1
      if not (is_zero w.0)
          then (do set_lock false; pure (w.0, buf))
          else (do r ← start_read addr buf len; set_lock false; pure r))
        s
