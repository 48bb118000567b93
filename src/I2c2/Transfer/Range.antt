-- ===== src/I2c2/Transfer/Range.antt =====
-- What the register accesses return.
use mathlib.Core.Path.{subst₂}
use linux_device_drivers_hw.I2c2.Isr.{run_irqs}
use linux_device_drivers_hw.I2c2.Isr.Frame.{run_irqs-len}
use linux_device_drivers_hw.Base.{
  sym, ltb, ℕ, ◌<◌, Bool, true, false, not, ◌||◌, ◌≡◌, refl, ◌⊎◌, inl, inr, List, [], ◌∷◌, Option,
  none, some, ℤ, pos, negsuc, ◌==◌, arith, if_keeps, is_zero, is_pos, is_neg, All-get_or,
}
use linux_device_drivers_hw.I2c2.Regs.{irqstatus}
use linux_device_drivers_hw.I2c2.State.{Phase, Ll, i2c_w}
use linux_device_drivers_hw.I2c2.Isr.Safe.{Holds, IsSafe, run_irqs-IsSafe}
use linux_device_drivers_hw.I2c2.Clock.{ensure_clk, wait_bus_free, dump_state, force_idle}
use linux_device_drivers_hw.I2c2.Clock.Quiet.{ensure_clk-Quiet, dump_state-Quiet}
use linux_device_drivers_hw.I2c2.Clock.Poll.{ensure_clk-code, wait_bus_free-code}
use linux_device_drivers_hw.I2c2.Transfer.{
  is_null, wait_done, begin_transfer, finish_transfer, start_transfer, start_write, start_read,
  read_byte, first_byte,
}

-- No positive result, and the array keeps its bytes.
abbrev pub IsSound : ℕ → ℤ × Option (List ℕ) → Type 0
IsSound len r = (is_pos r.0 ≡ false) × Holds r.1 len

wait_done-IsSafe : (s : Ll) → IsSafe s.g_xfer → IsSafe (wait_done s).1.g_xfer
unfolding wait_done
wait_done-IsSafe s v =
    let r = run_irqs-IsSafe (s.hw.irqs s.hw.now) s v in
    if_keeps (λ (t : Bool × Ll). IsSafe t.1.g_xfer)
      (ltb 0 (run_irqs (s.hw.irqs s.hw.now) s).g_xfer.done)
      (λ _. record { bounded = r.bounded; small = r.small; holds = r.holds; code = r.code })
      (λ _. r)

force_idle-buf : (s : Ll) → (force_idle s).1.g_xfer.buf ≡ s.g_xfer.buf
unfolding force_idle
force_idle-buf s = ground (arith, ensure_clk-Quiet s)

finish_transfer-buf : (c : Bool) (s : Ll) → (finish_transfer c s).1.g_xfer.buf ≡ s.g_xfer.buf
unfolding finish_transfer
finish_transfer-buf true s = refl
finish_transfer-buf false s =
    ground (arith, dump_state-Quiet s, force_idle-buf (i2c_w irqstatus 0xffff (dump_state s).1).1)

finish_transfer-code :
    (c : Bool) (s : Ll) → is_pos s.g_xfer.error ≡ false → is_pos (finish_transfer c s).0 ≡ false
unfolding finish_transfer
finish_transfer-code true s h = h
finish_transfer-code false s h = refl

wait_done-len : (s : Ll) → (wait_done s).1.g_xfer.len ≡ s.g_xfer.len
unfolding wait_done
wait_done-len s = ground (arith, run_irqs-len (s.hw.irqs s.hw.now) s)

driven-IsSound :
    (addr : ℕ) (buf : Option (List ℕ)) (len : ℕ) (phase : Phase) (flags : ℕ) (s : Ll)
    → Holds buf len
    → len < 256
    → let t = wait_done (begin_transfer addr buf len phase flags s).1 in
      let f = finish_transfer t.0 t.1 in IsSound len (f.0, f.1.g_xfer.buf)
unfolding begin_transfer
driven-IsSound addr buf len phase flags s h small =
    let b = (begin_transfer addr buf len phase flags s).1 in
    let v =
      wait_done-IsSafe b
        (record { bounded = omega arith; small = small; holds = h; code = refl }) in
    let w = wait_done b in
    (
      finish_transfer-code w.0 w.1 v.code,
      subst₂ Holds (sym (finish_transfer-buf w.0 w.1)) (wait_done-len b) v.holds,
    )

-- A transfer of `len` bytes from or into an array that holds them returns 0 or an error, and leaves
-- `len` bytes in the array at least, each below 256.
start_transfer-IsSound :
    (addr : ℕ) (buf : Option (List ℕ)) (len : ℕ) (phase : Phase) (flags : ℕ) (s : Ll)
    → Holds buf len
    → len < 256
    → IsSound len (start_transfer addr buf len phase flags s).0
unfolding start_transfer
start_transfer-IsSound addr buf len phase flags s h small =
    let s1 = (ensure_clk s).1 in
    let s2 = (wait_bus_free s1).1 in
    if_keeps (λ (m : Ll → (ℤ × Option (List ℕ)) × Ll). IsSound len (m s).0)
      (len == 0 || is_null buf) (λ _. (refl, h))
      (λ _.
        if_keeps (λ (m : Ll → (ℤ × Option (List ℕ)) × Ll). IsSound len (m s1).0)
          (not (is_zero (ensure_clk s).0)) (λ _. (ensure_clk-code s, h))
          (λ _.
            if_keeps (λ (m : Ll → (ℤ × Option (List ℕ)) × Ll). IsSound len (m s2).0)
              (not (is_zero (wait_bus_free s1).0)) (λ _. (wait_bus_free-code s1, h))
              (λ _. driven-IsSound addr buf len phase flags s2 h small)))

first_byte-lt : (buf : Option (List ℕ)) → Holds buf 1 → first_byte buf < 256
first_byte-lt none h = omega arith
first_byte-lt (some b) h = All-get_or (λ v. v < 256) b 0 0 (omega arith) h.1

pub start_write-IsSound :
    (addr : ℕ) (buf : Option (List ℕ)) (len : ℕ) (s : Ll)
    → Holds buf len
    → len < 256
    → IsSound len (start_write addr buf len s).0
unfolding start_write
start_write-IsSound addr buf len s = start_transfer-IsSound addr buf len _ _ s

pub start_read-IsSound :
    (addr : ℕ) (buf : Option (List ℕ)) (len : ℕ) (s : Ll)
    → Holds buf len
    → len < 256
    → IsSound len (start_read addr buf len s).0
unfolding start_read
start_read-IsSound addr buf len s = start_transfer-IsSound addr buf len _ _ s

-- A byte, or a negative error number.
abbrev pub IsByteOrError : ℤ → Type 0
IsByteOrError ret = (is_neg ret ≡ true) ⊎ ((v : ℕ) × (ret ≡ pos v) × (v < 256))

error_is_negative : (ret : ℤ) → is_pos ret ≡ false → is_zero ret ≡ false → IsByteOrError ret
error_is_negative (pos n) p z = absurd (ground arith)
error_is_negative (negsuc n) p z = inl refl

-- `i2c2_ll_read_byte` of a register number below 256 returns a value below 256 or a negative error,
-- whatever the hardware does.
pub read_byte_range : (addr reg : ℕ) (s : Ll) → reg < 256 → IsByteOrError (read_byte addr reg s).0
unfolding read_byte
read_byte_range addr reg s h =
    let s1 = record s { locked = true } in
    let w = start_write addr (some (reg ∷ [])) 1 s1 in
    let ws = start_write-IsSound addr (some (reg ∷ [])) 1 s1 (omega arith) (omega arith) in
    let rs = start_read-IsSound addr w.0.1 1 w.1 ws.1 (omega arith) in
    let r = start_read addr w.0.1 1 w.1 in
    if_keeps (λ (r : ℤ × Ll). IsByteOrError r.0) (not s.g_i2c2_ready) (λ _. inl refl)
      (λ _.
        if_keeps (λ (m : Ll → ℤ × Ll). IsByteOrError (m w.1).0) (not (is_zero w.0.0))
          (λ z. error_is_negative w.0.0 ws.0 (ground arith))
          (λ _.
            if_keeps IsByteOrError (is_zero r.0.0)
              (λ _. inr (first_byte r.0.1, refl, first_byte-lt r.0.1 rs.1))
              (λ z. error_is_negative r.0.0 rs.0 z)))
