-- ===== src/I2c2/Transfer/Outcome.antt =====
-- How a transfer ends: its result, the phase that it leaves, and the caller's array.
use linux_device_drivers_hw.Base.{
  ℕ, Bool, true, false, ◌≡◌, refl, ◌⊎◌, inl, inr, List, Option, pos, arith, is_zero, if◌then◌else◌,
}
use linux_device_drivers_hw.Base.Errno.{etimedout}
use linux_device_drivers_hw.I2c2.State.{Phase, idle, Ll}
use linux_device_drivers_hw.I2c2.Isr.Frame.{run_irqs-IsSettled}
use linux_device_drivers_hw.I2c2.Clock.{ensure_clk, wait_bus_free, force_idle}
use linux_device_drivers_hw.I2c2.Clock.Quiet.{ensure_clk-Quiet, wait_bus_free-Quiet}
use linux_device_drivers_hw.I2c2.Transfer.{
  wait_done, begin_transfer, finish_transfer, start_transfer,
}

-- `i2c2_force_idle` on a mapped controller makes the phase idle exactly when the clock can be
-- enabled; otherwise the phase, and with it the pointer to the caller's array, stays as it was.
force_idle_lem :
    (s : Ll)
    → s.i2c2_base ≡ true
    → (force_idle s).1.g_xfer
      ≡ record (s.g_xfer) { phase = if is_zero (ensure_clk s).0 then idle else s.g_xfer.phase }
unfolding force_idle
force_idle_lem s m = ground (arith, ensure_clk-Quiet s)

-- A wait that ended by a completion ended with an idle phase.
wait_done-idle :
    (s : Ll) → s.g_xfer.done ≡ 0 → (wait_done s).0 ≡ true → (wait_done s).1.g_xfer.phase ≡ idle
unfolding wait_done
wait_done-idle s d c =
    ground (arith, run_irqs-IsSettled (s.hw.irqs s.hw.now) s (λ h. absurd (omega arith)))

begin_transfer-done :
    (addr : ℕ) (buf : Option (List ℕ)) (len : ℕ) (phase : Phase) (flags : ℕ) (s : Ll)
    → (begin_transfer addr buf len phase flags s).1.g_xfer
      ≡ record { phase = phase; error = pos 0; buf = buf; len = len; idx = 0; done = 0 }
unfolding begin_transfer
begin_transfer-done addr buf len phase flags s = refl

finish_transfer-idle :
    (c : Bool) (s : Ll)
    → (c ≡ true → s.g_xfer.phase ≡ idle)
    → ((finish_transfer c s).1.g_xfer.phase ≡ idle) ⊎ ((finish_transfer c s).0 ≡ etimedout)
unfolding finish_transfer
finish_transfer-idle true s h = inl (h refl)
finish_transfer-idle false s h = inr refl

driven-idle :
    (addr : ℕ) (buf : Option (List ℕ)) (len : ℕ) (phase : Phase) (flags : ℕ) (s : Ll)
    → let t = (wait_done (begin_transfer addr buf len phase flags s).1) in
      let f = finish_transfer t.0 t.1 in (f.1.g_xfer.phase ≡ idle) ⊎ (f.0 ≡ etimedout)
driven-idle addr buf len phase flags s =
    let b = (begin_transfer addr buf len phase flags s).1 in
    finish_transfer-idle (wait_done b).0 (wait_done b).1
      (wait_done-idle b (ground (arith, begin_transfer-done addr buf len phase flags s)))

-- A transfer begun with an idle phase ends with an idle phase, unless it timed out.
start_transfer-idle :
    (addr : ℕ) (buf : Option (List ℕ)) (len : ℕ) (phase : Phase) (flags : ℕ) (s : Ll)
    → s.g_xfer.phase ≡ idle
    → let r = start_transfer addr buf len phase flags s in
      (r.1.g_xfer.phase ≡ idle) ⊎ (r.0.0 ≡ etimedout)
unfolding start_transfer
start_transfer-idle addr buf len phase flags s h =
    let s1 = (ensure_clk s).1 in
    let s2 = (wait_bus_free s1).1 in
    ground
      (arith, ensure_clk-Quiet s, wait_bus_free-Quiet s1, driven-idle addr buf len phase flags s2)
