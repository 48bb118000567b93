-- ===== src/I2c2/Transfer/Frame.antt =====
-- A transfer touches the transfer context, the registers and the time only; the register accesses
-- release the mutex on every branch.
use linux_device_drivers_hw.Base.{
  ℕ, Bool, true, false, not, ◌||◌, ◌≡◌, List, [], ◌∷◌, Option, some, ℤ, ◌==◌, arith, if_keeps,
  is_zero,
}
use linux_device_drivers_hw.I2c2.Regs.{irqstatus}
use linux_device_drivers_hw.I2c2.State.{Phase, Ll, i2c_w}
use linux_device_drivers_hw.I2c2.State.Frame.{Keeps, Keeps-refl, Keeps-trans}
use linux_device_drivers_hw.I2c2.Isr.Frame.{run_irqs-Keeps}
use linux_device_drivers_hw.I2c2.Clock.{ensure_clk, wait_bus_free, dump_state, force_idle}
use linux_device_drivers_hw.I2c2.Clock.Quiet.{
  Quiet, ensure_clk-Quiet, wait_bus_free-Quiet, dump_state-Quiet,
}
use linux_device_drivers_hw.I2c2.Transfer.{
  is_null, wait_done, begin_transfer, finish_transfer, start_transfer, start_write, start_read,
  write_byte, read_byte, read_block,
}

pub Keeps-Quiet : (s t : Ll) → Quiet s t → Keeps s t
Keeps-Quiet s t q = ground arith

wait_done-Keeps : (s : Ll) → Keeps s (wait_done s).1
unfolding wait_done
wait_done-Keeps s = ground (arith, run_irqs-Keeps (s.hw.irqs s.hw.now) s)

begin_transfer-Keeps :
    (addr : ℕ) (buf : Option (List ℕ)) (len : ℕ) (phase : Phase) (flags : ℕ) (s : Ll)
    → s.i2c2_base ≡ true
    → Keeps s (begin_transfer addr buf len phase flags s).1
unfolding begin_transfer
begin_transfer-Keeps addr buf len phase flags s m = ground arith

force_idle-Keeps : (s : Ll) → Keeps s (force_idle s).1
unfolding force_idle
force_idle-Keeps s = ground (arith, ensure_clk-Quiet s)

finish_transfer-Keeps : (c : Bool) (s : Ll) → s.i2c2_base ≡ true → Keeps s (finish_transfer c s).1
unfolding finish_transfer
finish_transfer-Keeps true s m = Keeps-refl s
finish_transfer-Keeps false s m =
    let d = dump_state-Quiet s in
    let t = (dump_state s).1 in ground (arith, d, force_idle-Keeps (i2c_w irqstatus 0xffff t).1)

wait_bus_free-mapped : (s : Ll) → is_zero (wait_bus_free s).0 ≡ true → s.i2c2_base ≡ true
unfolding wait_bus_free
wait_bus_free-mapped s z = ground arith

-- The part of a transfer behind the guards.
driven-Keeps :
    (addr : ℕ) (buf : Option (List ℕ)) (len : ℕ) (phase : Phase) (flags : ℕ) (s : Ll)
    → s.i2c2_base ≡ true
    → let t = (wait_done (begin_transfer addr buf len phase flags s).1) in
      Keeps s (finish_transfer t.0 t.1).1
driven-Keeps addr buf len phase flags s m =
    let b = begin_transfer-Keeps addr buf len phase flags s m in
    let s1 = (begin_transfer addr buf len phase flags s).1 in
    let w = wait_done-Keeps s1 in
    let f = finish_transfer-Keeps (wait_done s1).0 (wait_done s1).1 (ground arith) in
    Keeps-trans s s1 _ b (Keeps-trans s1 _ _ w f)

start_transfer-Keeps :
    (addr : ℕ) (buf : Option (List ℕ)) (len : ℕ) (phase : Phase) (flags : ℕ) (s : Ll)
    → Keeps s (start_transfer addr buf len phase flags s).1
unfolding start_transfer
start_transfer-Keeps addr buf len phase flags s =
    let P = λ (m : Ll → (ℤ × Option (List ℕ)) × Ll). Keeps s (m s).1 in
    let c = Keeps-Quiet s _ (ensure_clk-Quiet s) in
    let s1 = (ensure_clk s).1 in
    let w = Keeps-trans s s1 _ c (Keeps-Quiet s1 _ (wait_bus_free-Quiet s1)) in
    let s2 = (wait_bus_free s1).1 in
    if_keeps P (len == 0 || is_null buf) (λ _. Keeps-refl s)
      (λ _.
        if_keeps (λ (m : Ll → (ℤ × Option (List ℕ)) × Ll). Keeps s (m s1).1)
          (not (is_zero (ensure_clk s).0)) (λ _. c)
          (λ _.
            if_keeps (λ (m : Ll → (ℤ × Option (List ℕ)) × Ll). Keeps s (m s2).1)
              (not (is_zero (wait_bus_free s1).0)) (λ _. w)
              (λ z. Keeps-trans s s2 _ w (
                driven-Keeps addr buf len phase flags s2
                  (ground (arith, wait_bus_free-mapped s1, wait_bus_free-Quiet s1))))))

pub start_write-Keeps :
    (addr : ℕ) (buf : Option (List ℕ)) (len : ℕ) (s : Ll) → Keeps s (start_write addr buf len s).1
unfolding start_write
start_write-Keeps addr buf len s = start_transfer-Keeps addr buf len _ _ s

start_read-Keeps :
    (addr : ℕ) (buf : Option (List ℕ)) (len : ℕ) (s : Ll) → Keeps s (start_read addr buf len s).1
unfolding start_read
start_read-Keeps addr buf len s = start_transfer-Keeps addr buf len _ _ s

write_byte-Keeps :
    (addr reg val : ℕ) (s : Ll) → s.locked ≡ false → Keeps s (write_byte addr reg val s).1
unfolding write_byte
write_byte-Keeps addr reg val s h =
    ground (arith, start_write-Keeps addr (some (reg ∷ val ∷ [])) 2 (record s { locked = true }))

read_byte-Keeps : (addr reg : ℕ) (s : Ll) → s.locked ≡ false → Keeps s (read_byte addr reg s).1
unfolding read_byte
read_byte-Keeps addr reg s h =
    let s1 = record s { locked = true } in
    let w = start_write addr (some (reg ∷ [])) 1 s1 in
    ground (arith, start_write-Keeps addr (some (reg ∷ [])) 1 s1, start_read-Keeps addr w.0.1 1 w.1)

read_block-Keeps :
    (addr reg len : ℕ) (buf : Option (List ℕ)) (s : Ll)
    → s.locked ≡ false
    → Keeps s (read_block addr reg len buf s).1
unfolding read_block
read_block-Keeps addr reg len buf s h =
    let s1 = record s { locked = true } in
    let w = start_write addr (some (reg ∷ [])) 1 s1 in
    ground (arith, start_write-Keeps addr (some (reg ∷ [])) 1 s1, start_read-Keeps addr buf len w.1)

-- A register write, a register read and a block read, called with the mutex free, each leave the
-- mappings, the interrupt, the handlers and the readiness alone, go through no NULL base, and have
-- released the mutex at their return: on every branch, errors and timeouts included.
pub accesses-Keeps :
    (addr reg val len : ℕ) (buf : Option (List ℕ)) (s : Ll)
    → s.locked ≡ false
    → Keeps s (write_byte addr reg val s).1
      × Keeps s (read_byte addr reg s).1
      × Keeps s (read_block addr reg len buf s).1
accesses-Keeps addr reg val len buf s h = (
  write_byte-Keeps addr reg val s h,
  read_byte-Keeps addr reg s h,
  read_block-Keeps addr reg len buf s h,
)
