-- ===== src/I2c2/Isr/Safe.antt =====
-- The interrupt handler stays inside the caller's array, and leaves everything but the transfer
-- alone.
use mathlib.Core.Path.{subst}
use linux_device_drivers_hw.Base.{
  ℕ, ◌%◌, ◌≤◌, ◌<◌, true, false, ◌≡◌, refl, List, [], ◌∷◌, Option, none, some, arith, inl, inr,
  Bool-cases, if_keeps, not, is_pos, ltb, ◌&&◌, sym, ◌==◌, ◌||◌, test_bit, length, length-set, set,
  All, All-set,
}
use linux_device_drivers_hw.I2c2.Regs.{irqstatus_raw, irqstatus}
use linux_device_drivers_hw.I2c2.State.{Access, rd, Irq, Xfer, Ll}
use linux_device_drivers_hw.I2c2.Regs.IrqBit
use linux_device_drivers_hw.I2c2.Isr.{
  IrqReturn, log, is_sending, is_receiving, on_error, send_next, on_xrdy, receive_next, on_rrdy,
  on_ardy, irq_handler, run_irqs,
}

-- The array of a transfer, if there is one, holds `len` bytes at least.
abbrev pub Holds : Option (List ℕ) → ℕ → Type 0
Holds none len = Unit
Holds (some b) len = (len ≤ length b) × All (λ v. v < 256) b

-- The index has not passed the length, which is a byte, the array is long enough, and the result is
-- 0 or an error.
pub record IsSafe (x : Xfer) : Type 0 where
  pub bounded : x.idx ≤ x.len
  pub small : x.len < 256
  pub holds : Holds x.buf x.len
  pub code : is_pos x.error ≡ false

Holds-set : (b : List ℕ) (i v n : ℕ) → Holds (some b) n → Holds (some (set b i (v % 256))) n
Holds-set b i v n h = (
  omega (arith, length-set {0} b i (v % 256), h.0),
  All-set (λ u. u < 256) b i (v % 256) (omega arith) h.1,
)

on_error-IsSafe : (e : Irq) (s : Ll) → IsSafe s.g_xfer → IsSafe (on_error e s).g_xfer
unfolding on_error
on_error-IsSafe e s v = record {
  bounded = v.bounded;
  small = v.small;
  holds = v.holds;
  code = ground arith;
}

send_next-IsSafe : (b : Option (List ℕ)) (s : Ll) → IsSafe s.g_xfer → IsSafe (send_next b s).g_xfer
unfolding send_next
send_next-IsSafe none s v = v
send_next-IsSafe (some b) s v = elim (Bool-cases (ltb s.g_xfer.idx s.g_xfer.len)) [
  | inl more ↦
      rw more (record { bounded = ground arith; small = v.small; holds = v.holds; code = v.code })
  | inr full ↦ rw full v
]

on_xrdy-IsSafe : (e : Irq) (s : Ll) → IsSafe s.g_xfer → IsSafe (on_xrdy e s).g_xfer
unfolding on_xrdy
on_xrdy-IsSafe e s v =
    elim (Bool-cases (test_bit e.status IrqBit.xrdy && is_sending s.g_xfer.phase)) [
      | inl go ↦ rw go (send_next-IsSafe s.g_xfer.buf s v)
      | inr skip ↦ rw skip v
    ]

receive_next-IsSafe :
    (b : Option (List ℕ)) (byte : ℕ) (s : Ll)
    → b ≡ s.g_xfer.buf
    → IsSafe s.g_xfer
    → IsSafe (receive_next b byte s).g_xfer
unfolding receive_next
receive_next-IsSafe none byte s e v = v
receive_next-IsSafe (some b) byte s e v = elim (Bool-cases (ltb s.g_xfer.idx s.g_xfer.len)) [
  | inl more ↦ rw more (record {
    bounded = ground arith;
    small = v.small;
    holds =
        Holds-set b s.g_xfer.idx byte s.g_xfer.len
          (subst (λ o. Holds o s.g_xfer.len) (sym e) v.holds);
    code = v.code;
  })
  | inr full ↦ rw full v
]

on_rrdy-IsSafe : (e : Irq) (s : Ll) → IsSafe s.g_xfer → IsSafe (on_rrdy e s).g_xfer
unfolding on_rrdy
on_rrdy-IsSafe e s v =
    elim (Bool-cases (test_bit e.status IrqBit.rrdy && is_receiving s.g_xfer.phase)) [
      | inl go ↦ rw go (receive_next-IsSafe s.g_xfer.buf e.byte s refl v)
      | inr skip ↦ rw skip v
    ]

on_ardy-IsSafe : (e : Irq) (s : Ll) → IsSafe s.g_xfer → IsSafe (on_ardy e s).g_xfer
unfolding on_ardy
on_ardy-IsSafe e s v = elim (Bool-cases (test_bit e.status IrqBit.ardy)) [
  | inl go ↦ rw go (record { bounded = v.bounded; small = v.small; holds = v.holds; code = v.code })
  | inr skip ↦ rw skip v
]

-- What the two reads and the four parts of the handler keep, the handler keeps.
pub irq_handler_keeps :
    (P : Ll → Type 0)
    → ((a : Access) (s : Ll) → s.i2c2_base ≡ true → P s → P (log a s))
    → ((e : Irq) (s : Ll) → s.i2c2_base ≡ true → P s → P (on_error e s))
    → ((e : Irq) (s : Ll) → s.i2c2_base ≡ true → P s → P (on_ardy e (on_rrdy e (on_xrdy e s))))
    → (e : Irq) (s : Ll) → P s
    → P (irq_handler e s).1
unfolding irq_handler
irq_handler_keeps P kept failed served e s v =
    if_keeps (λ (r : IrqReturn × Ll). P r.1) (not s.i2c2_base) (λ _. v)
      (λ m.
        let mapped : s.i2c2_base ≡ true = ground arith in
        let v2 = kept (rd irqstatus e.status) _ mapped (kept (rd irqstatus_raw e.raw) s mapped v) in
        if_keeps (λ (r : IrqReturn × Ll). P r.1) (e.raw == 0) (λ _. v2)
          (λ _.
            if_keeps (λ (r : IrqReturn × Ll). P r.1)
              (test_bit e.status IrqBit.nack || test_bit e.status IrqBit.al)
              (λ _. failed e _ mapped v2) (λ _. served e _ mapped v2)))

-- When the index is within the length, the length is below 256 and within the array, whose bytes
-- are below 256, and the result is not positive, the same holds after the handler has served an
-- interrupt, whatever that reports.
pub irq_handler-IsSafe : (e : Irq) (s : Ll) → IsSafe s.g_xfer → IsSafe (irq_handler e s).1.g_xfer
irq_handler-IsSafe =
    irq_handler_keeps (λ s. IsSafe s.g_xfer) (λ a s _ v. v) (λ e s _. on_error-IsSafe e s)
      (λ e s _ v. on_ardy-IsSafe e _ (on_rrdy-IsSafe e _ (on_xrdy-IsSafe e s v)))

-- Any number of interrupts keeps it.
pub run_irqs-IsSafe : (es : List Irq) (s : Ll) → IsSafe s.g_xfer → IsSafe (run_irqs es s).g_xfer
unfolding run_irqs
run_irqs-IsSafe [] s v = v
run_irqs-IsSafe (e ∷ es) s v = run_irqs-IsSafe es (irq_handler e s).1 (irq_handler-IsSafe e s v)
