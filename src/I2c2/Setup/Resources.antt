-- ===== src/I2c2/Setup/Resources.antt =====
-- What the driver holds of the kernel, and that no operation loses or doubles any of it.
use linux_device_drivers_hw.Base.{
  ℕ, zero, suc, ◌+◌, ◌^◌, true, false, ◌≡◌, ◌∙◌, List, Option, none, ℤ, is_pos, to_nat, arith,
  if_keeps, not, ◌==◌, if◌then◌else◌, [], ◌∷◌,
}
use linux_device_drivers_hw.I2c2.Regs.{sysc, con, syss}
use linux_device_drivers_hw.I2c2.State.{Ll, i2c_r, i2c_w, cm_r, cm_w, udelay}
use linux_device_drivers_hw.I2c2.State.Frame.{Keeps, Keeps-trans}
use linux_device_drivers_hw.I2c2.Clock.{set_mode}
use linux_device_drivers_hw.I2c2.Clock.Quiet.{Quiet, Quiet-refl, disable_clk-Quiet}
use linux_device_drivers_hw.I2c2.Transfer.{write_byte, read_byte, read_block}
use linux_device_drivers_hw.I2c2.Transfer.Frame.{Keeps-Quiet, accesses-Keeps}
use linux_device_drivers_hw.I2c2.Setup.{
  map_i2c2, map_bases, poll_enable, poll_reset, set_speed, program, request_irq, attach, enable_clk,
  init, release, deinit, free_irq,
}

-- Every live mapping is known by its base, a handler is registered exactly while the driver is
-- ready, I2C2 is mapped only with CM_PER, a ready driver has both and a valid interrupt number, and
-- no access has gone through a NULL base; the mutex is free.
pub record Inv (s : Ll) : Type 0 where
  pub no_fault : s.hw.faulted ≡ false
  pub maps_known : s.hw.maps ≡ to_nat s.cm_per_base + to_nat s.i2c2_base
  pub handler_known : s.hw.handlers ≡ to_nat s.g_i2c2_ready
  pub free : s.locked ≡ false
  pub order : s.i2c2_base ≡ true → s.cm_per_base ≡ true
  pub ready_mapped : s.g_i2c2_ready ≡ true → s.i2c2_base ≡ true
  pub ready_irq : s.g_i2c2_ready ≡ true → is_pos s.g_i2c2_irq ≡ true

Keeps-Inv : (s t : Ll) → Keeps s t → Inv s → Inv t
Keeps-Inv s t k v = ground arith

map_i2c2-Inv :
    (s : Ll)
    → s.g_i2c2_ready ≡ false
    → s.cm_per_base ≡ true
    → Inv s
    → let r = map_i2c2 s in
      Inv r.1 × (r.1.g_i2c2_ready ≡ false) × (r.1.g_i2c2_irq ≡ s.g_i2c2_irq) × (r.0 ≡ r.1.i2c2_base)
unfolding map_i2c2
map_i2c2-Inv s n c v = ground arith

pub map_bases-Inv :
    (s : Ll)
    → s.g_i2c2_ready ≡ false
    → Inv s
    → let r = map_bases s in
      Inv r.1 × (r.1.g_i2c2_ready ≡ false) × (r.1.g_i2c2_irq ≡ s.g_i2c2_irq) × (r.0 ≡ r.1.i2c2_base)
unfolding map_bases
map_bases-Inv s n v = ground arith

poll_enable-Quiet : (n : ℕ) (s : Ll) → s.cm_per_base ≡ true → Quiet s (poll_enable n s).1
unfolding poll_enable
poll_enable-Quiet zero s h = Quiet-refl s
poll_enable-Quiet (suc n) s h = ground (arith, poll_enable-Quiet n (udelay 10 (cm_r s).1).1)

poll_reset-Quiet : (n : ℕ) (s : Ll) → s.i2c2_base ≡ true → Quiet s (poll_reset n s).1
unfolding poll_reset
poll_reset-Quiet zero s h = Quiet-refl s
poll_reset-Quiet (suc n) s h = ground (arith, poll_reset-Quiet n (udelay 10 (i2c_r syss s).1).1)

pub enable_clk-Quiet : (s : Ll) → s.cm_per_base ≡ true → Quiet s (enable_clk s).1
unfolding enable_clk
enable_clk-Quiet s h =
    ground (arith, poll_enable-Quiet 1000 (cm_w (set_mode (cm_r s).0) (cm_r s).1).1)

set_speed-Keeps : (khz : ℕ) (s : Ll) → s.i2c2_base ≡ true → Keeps s (set_speed khz s).1
unfolding set_speed
set_speed-Keeps khz s h = ground arith

pub program-Keeps : (khz : ℕ) (s : Ll) → s.i2c2_base ≡ true → Keeps s (program khz s).1
unfolding program
program-Keeps khz s h =
    let t1 = (i2c_w sysc (2 ^ 1) s).1 in
    let t2 = (poll_reset 100 t1).1 in
    let t3 = (udelay 10 (i2c_w con 0 t2).1).1 in
    ground (arith, poll_reset-Quiet 100 t1, set_speed-Keeps khz t3)

attach-Inv :
    (s : Ll)
    → s.g_i2c2_ready ≡ false
    → s.cm_per_base ≡ true
    → s.i2c2_base ≡ true
    → is_pos s.g_i2c2_irq ≡ true
    → Inv s
    → Inv (attach s).1
unfolding attach
attach-Inv s n c m p v = ground (arith, disable_clk-Quiet (i2c_w con 0 (request_irq s).1).1)

release-Inv : (s : Ll) → s.g_i2c2_ready ≡ true → Inv s → Inv (release s).1
unfolding release
release-Inv s r v = ground (arith, disable_clk-Quiet (i2c_w con 0 (free_irq s).1).1)

-- Behind the mapping of both blocks.
started-Inv :
    (khz : ℕ) (s : Ll)
    → s.g_i2c2_ready ≡ false
    → s.i2c2_base ≡ true
    → is_pos s.g_i2c2_irq ≡ true
    → Inv s
    → Inv (enable_clk s).1 × Inv (attach (program khz (enable_clk s).1).1).1
started-Inv khz s n m p v =
    let t = (enable_clk s).1 in
    let k = Keeps-Quiet s t (enable_clk-Quiet s (v.order m)) in
    let u = (program khz t).1 in
    let l = Keeps-trans s t u k (program-Keeps khz t (k.same_i2c2 ∙ m)) in
    (
      Keeps-Inv s t k v,
      attach-Inv u (l.same_ready ∙ n) (l.same_cm ∙ v.order m) (l.same_i2c2 ∙ m) (ground arith)
          (Keeps-Inv s u l v),
    )

init-Inv : (khz : ℕ) (irq : ℤ) (s : Ll) → Inv s → Inv (init khz irq s).1
unfolding init
init-Inv khz irq s v =
    let s1 = record s { g_i2c2_irq = irq } in
    let t = map_bases s1 in
    if_keeps (λ (r : ℤ × Ll). Inv r.1) s.g_i2c2_ready (λ _. v)
      (λ n.
        if_keeps (λ (r : ℤ × Ll). Inv r.1) (not (is_pos irq)) (λ _. v)
          (λ p.
            let (v1, n1, q1, m1) = map_bases-Inv s1 n (ground arith) in
            if_keeps (λ (m : Ll → ℤ × Ll). Inv (m t.1).1) (not t.0) (λ _. v1)
              (λ mapped.
                let b =
                  started-Inv (if khz == 0 then 100 else khz) t.1 n1 (ground arith) (ground arith)
                    v1 in
                if_keeps (λ (m : Ll → ℤ × Ll). Inv (m (enable_clk t.1).1).1)
                  (not (is_pos (enable_clk t.1).0)) (λ _. b.0) (λ _. b.1))))

deinit-Inv : (s : Ll) → Inv s → Inv (deinit s).1
unfolding deinit
deinit-Inv s v = ground (arith, release-Inv s)

-- A call of one of the functions that i2c2_ll.h exports.
pub data Call : Type 0 where
  initialise : ℕ → ℤ → Call
  deinitialise : Call
  write : ℕ → ℕ → ℕ → Call
  read : ℕ → ℕ → Call
  read_many : ℕ → ℕ → ℕ → Option (List ℕ) → Call

abbrev pub call : Call → Ll → Ll
call (initialise khz irq) s = (init khz irq s).1
call deinitialise s = (deinit s).1
call (write addr reg val) s = (write_byte addr reg val s).1
call (read addr reg) s = (read_byte addr reg s).1
call (read_many addr reg len buf) s = (read_block addr reg len buf s).1

abbrev pub calls : List Call → Ll → Ll
calls [] s = s
calls (c ∷ cs) s = calls cs (call c s)

call-Inv : (c : Call) (s : Ll) → Inv s → Inv (call c s)
call-Inv (initialise khz irq) s v = init-Inv khz irq s v
call-Inv deinitialise s v = deinit-Inv s v
call-Inv (write addr reg val) s v = Keeps-Inv s _ (accesses-Keeps addr reg val 0 none s v.free).0 v
call-Inv (read addr reg) s v = Keeps-Inv s _ (accesses-Keeps addr reg 0 0 none s v.free).1 v
call-Inv (read_many addr reg len buf) s v =
    Keeps-Inv s _ (accesses-Keeps addr reg 0 len buf s v.free).2 v

-- After any sequence of calls of the exported functions, with any answers of the hardware and the
-- kernel, the resource invariant holds if it did at the start: every live mapping is known by its
-- base, a handler is registered exactly while the driver is ready, no access has gone through a
-- NULL base, and the mutex is free.
pub calls-Inv : (cs : List Call) (s : Ll) → Inv s → Inv (calls cs s)
calls-Inv [] s v = v
calls-Inv (c ∷ cs) s v = calls-Inv cs (call c s) (call-Inv c s v)
