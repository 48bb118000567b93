-- ===== src/I2c2/Isr/Bytes.antt =====
-- Runs of interrupts that ask for a byte, or bring one.
use linux_device_drivers_hw.Base.{
  ℕ, suc, ◌+◌, ◌%◌, ◌≤◌, ◌<◌, true, false, ◌≡◌, ◌≢◌, refl, List, [], ◌∷◌, ◌++◌, some, arith,
  test_bit, length, get_or, set, take, drop, All, append_assoc, append-nil, take-set, drop-set,
  take-append-drop, take-drop-suc, length-set, ap, ap₂, ◌∙◌, sym,
}
use linux_device_drivers_hw.I2c2.Regs.{irqstatus_raw, irqstatus, i2c_data}
use linux_device_drivers_hw.I2c2.Regs.IrqBit
use linux_device_drivers_hw.I2c2.State.{
  Access, rd, wr, Irq, idle, sending, receiving, Xfer, Ll, complete,
}
use linux_device_drivers_hw.I2c2.Isr.{log, on_xrdy, on_rrdy, on_ardy, irq_handler, run_irqs}

-- No error, and not the end of the transfer.
abbrev IsPlain : Irq → Type 0
IsPlain e =
    (e.raw ≢ 0)
    × (test_bit e.status IrqBit.nack ≡ false)
    × (test_bit e.status IrqBit.al ≡ false)
    × (test_bit e.status IrqBit.ardy ≡ false)

abbrev pub IsXrdy : Irq → Type 0
IsXrdy e = IsPlain e × (test_bit e.status IrqBit.xrdy ≡ true)

abbrev pub IsRrdy : Irq → Type 0
IsRrdy e = IsPlain e × (test_bit e.status IrqBit.rrdy ≡ true)

-- The bytes that went to I2C_DATA, in order.
unfoldable pub sent : List Access → List ℕ
sent [] = []
sent (wr i2c_data v ∷ tr) = sent tr ++ v ∷ []
sent (_ ∷ tr) = sent tr

-- The state behind the two reads that the handler begins with.
abbrev entered : Irq → Ll → Ll
entered e s = log (rd irqstatus e.status) (log (rd irqstatus_raw e.raw) s)

plain_served :
    (e : Irq) (s : Ll)
    → IsPlain e
    → s.i2c2_base ≡ true
    → (irq_handler e s).1 ≡ on_ardy e (on_rrdy e (on_xrdy e (entered e s)))
unfolding irq_handler
plain_served e s x m = ground arith

on_ardy-plain : (e : Irq) (s : Ll) → IsPlain e → on_ardy e s ≡ s
unfolding on_ardy
on_ardy-plain e s x = rw (x.3)

on_rrdy-sending : (e : Irq) (s : Ll) → s.g_xfer.phase ≡ sending → on_rrdy e s ≡ s
unfolding on_rrdy
on_rrdy-sending e s p = ground arith

on_xrdy-receiving : (e : Irq) (s : Ll) → s.g_xfer.phase ≡ receiving → on_xrdy e s ≡ s
unfolding on_xrdy
on_xrdy-receiving e s p = ground arith

on_xrdy-sends :
    (e : Irq) (s : Ll) (b : List ℕ)
    → test_bit e.status IrqBit.xrdy ≡ true
    → s.g_xfer.phase ≡ sending
    → s.g_xfer.buf ≡ some b
    → s.g_xfer.idx < s.g_xfer.len
    → s.g_xfer.len < 256
    → let t = on_xrdy e s in
      (t.i2c2_base ≡ s.i2c2_base)
      × (t.g_xfer ≡ record (s.g_xfer) { idx = s.g_xfer.idx + 1 })
      × (sent t.hw.trace ≡ sent s.hw.trace ++ get_or b s.g_xfer.idx 0 ∷ [])
unfolding on_xrdy sent
on_xrdy-sends e s b x p bf lt small = ground arith

on_rrdy-receives :
    (e : Irq) (s : Ll) (b : List ℕ)
    → test_bit e.status IrqBit.rrdy ≡ true
    → s.g_xfer.phase ≡ receiving
    → s.g_xfer.buf ≡ some b
    → s.g_xfer.idx < s.g_xfer.len
    → s.g_xfer.len < 256
    → let t = on_rrdy e s in
      (t.i2c2_base ≡ s.i2c2_base)
      × (t.g_xfer ≡ record (s.g_xfer) {
        buf = some (set b s.g_xfer.idx (e.byte % 256));
        idx = s.g_xfer.idx + 1;
      })
unfolding on_rrdy
on_rrdy-receives e s b x p bf lt small = ground arith

send_step :
    (e : Irq) (s : Ll) (b : List ℕ)
    → IsXrdy e
    → s.i2c2_base ≡ true
    → s.g_xfer.phase ≡ sending
    → s.g_xfer.buf ≡ some b
    → s.g_xfer.idx < s.g_xfer.len
    → s.g_xfer.len < 256
    → let t = (irq_handler e s).1 in
      (t.i2c2_base ≡ true)
      × (t.g_xfer ≡ record (s.g_xfer) { idx = s.g_xfer.idx + 1 })
      × (sent t.hw.trace ≡ sent s.hw.trace ++ get_or b s.g_xfer.idx 0 ∷ [])
unfolding sent
send_step e s b x m p bf lt small =
    let step = on_xrdy-sends e (entered e s) b x.1 p bf lt small in
    let t = on_xrdy e (entered e s) in
    let phase : t.g_xfer.phase ≡ sending = ap Xfer.phase step.1 ∙ p in
    rw (plain_served e s x.0 m, on_rrdy-sending e t phase, on_ardy-plain e t x.0)
      (step.0 ∙ m, step.1, step.2)

receive_step :
    (e : Irq) (s : Ll) (b : List ℕ)
    → IsRrdy e
    → s.i2c2_base ≡ true
    → s.g_xfer.phase ≡ receiving
    → s.g_xfer.buf ≡ some b
    → s.g_xfer.idx < s.g_xfer.len
    → s.g_xfer.len < 256
    → let t = (irq_handler e s).1 in
      (t.i2c2_base ≡ true)
      × (t.g_xfer ≡ record (s.g_xfer) {
        buf = some (set b s.g_xfer.idx (e.byte % 256));
        idx = s.g_xfer.idx + 1;
      })
receive_step e s b x m p bf lt small =
    let step = on_rrdy-receives e (entered e s) b x.1 p bf lt small in
    let t = on_rrdy e (entered e s) in
    rw (plain_served e s x.0 m, on_xrdy-receiving e (entered e s) p, on_ardy-plain e t x.0)
      (step.0 ∙ m, step.1)

-- While a transfer is sending, each interrupt that asks for a byte puts the next byte of the array
-- on the bus: n of them send the n bytes from the index on, in order, and move the index by n.
pub run_irqs-sends :
    (es : List Irq) (s : Ll) (b : List ℕ)
    → All IsXrdy es
    → s.i2c2_base ≡ true
    → s.g_xfer.phase ≡ sending
    → s.g_xfer.buf ≡ some b
    → s.g_xfer.idx + length es ≤ s.g_xfer.len
    → s.g_xfer.len ≤ length b
    → s.g_xfer.len < 256
    → let t = run_irqs es s in
      (sent t.hw.trace ≡ sent s.hw.trace ++ take (length es) (drop s.g_xfer.idx b))
      × (t.g_xfer ≡ record (s.g_xfer) { idx = s.g_xfer.idx + length es })
      × (t.i2c2_base ≡ true)
unfolding run_irqs
run_irqs-sends [] s b all m p bf le fits small = (sym (append-nil _), ground arith, m)
run_irqs-sends (e ∷ es) s b all m p bf le fits small =
    let (m', x', tr) = send_step e s b all.0 m p bf (omega arith) small in
    let t = (irq_handler e s).1 in
    let (tr', x'', m'') =
      run_irqs-sends es t b all.1 m' (ground arith) (ground arith) (ground arith) (ground arith)
        (ground arith) in
    let i = s.g_xfer.idx in
    let at : t.g_xfer.idx ≡ suc i = ground arith in
    (
      tr'
          ∙ ap₂ (λ l j. l ++ take (length es) (drop j b)) tr at
          ∙ append_assoc (sent s.hw.trace) (get_or b i 0 ∷ []) (take (length es) (drop (suc i) b))
          ∙ ap (λ l. sent s.hw.trace ++ l) (sym (take-drop-suc (length es) i b 0 (omega arith))),
      ground arith,
      m'',
    )

-- The bytes that a run of interrupts brings, as they are stored.
abbrev pub bytes : List Irq → List ℕ
bytes [] = []
bytes (e ∷ es) = e.byte % 256 ∷ bytes es

-- The array after `n` more elements were written from index `i` on.
splice-set :
    (b vs : List ℕ) (i n v : ℕ)
    → i < length b
    → take (suc i) (set b i v) ++ (vs ++ drop (suc i + n) (set b i v))
      ≡ take i b ++ (v ∷ vs ++ drop (i + suc n) b)
splice-set b vs i n v h =
    ap₂ (λ l r. l ++ (vs ++ r)) (take-set b i v h)
      (drop-set b i (suc i + n) v (omega arith) ∙ ap (λ j. drop j b) (omega arith))
    ∙ append_assoc (take i b) (v ∷ []) (vs ++ drop (i + suc n) b)

-- While a transfer is receiving, each interrupt that brings a byte stores it, cut to 8 bits, at the
-- index: n of them replace the n elements of the array from there on, in order, leave the others,
-- and move the index by n.
pub run_irqs-receives :
    (es : List Irq) (s : Ll) (b : List ℕ)
    → All IsRrdy es
    → s.i2c2_base ≡ true
    → s.g_xfer.phase ≡ receiving
    → s.g_xfer.buf ≡ some b
    → s.g_xfer.idx + length es ≤ s.g_xfer.len
    → s.g_xfer.len ≤ length b
    → s.g_xfer.len < 256
    → let t = run_irqs es s in
      let i = s.g_xfer.idx in
      (t.g_xfer ≡ record (s.g_xfer) {
        buf = some (take i b ++ (bytes es ++ drop (i + length es) b));
        idx = i + length es;
      })
      × (t.i2c2_base ≡ true)
unfolding run_irqs
run_irqs-receives [] s b all m p bf le fits small =
    (ground (arith, take-append-drop s.g_xfer.idx b), m)
run_irqs-receives (e ∷ es) s b all m p bf le fits small =
    let i = s.g_xfer.idx in
    let (m', x') = receive_step e s b all.0 m p bf (omega arith) small in
    let t = (irq_handler e s).1 in
    let b' = set b i (e.byte % 256) in
    let (x'', m'') =
      run_irqs-receives es t b' all.1 m' (ground arith) (ground arith) (ground arith)
        (ground (arith, length-set b i (e.byte % 256))) (ground arith) in
    (ground (arith, splice-set b (bytes es) i (length es) (e.byte % 256) (omega arith)), m'')

-- The end of a transfer, with no byte.
abbrev pub IsEnd : Irq → Type 0
IsEnd e =
    (e.raw ≢ 0)
    × (test_bit e.status IrqBit.nack ≡ false)
    × (test_bit e.status IrqBit.al ≡ false)
    × (test_bit e.status IrqBit.ardy ≡ true)
    × (test_bit e.status IrqBit.xrdy ≡ false)
    × (test_bit e.status IrqBit.rrdy ≡ false)

end_step :
    (e : Irq) (s : Ll)
    → IsEnd e
    → s.i2c2_base ≡ true
    → let t = (irq_handler e s).1 in
      (t.g_xfer ≡ complete (record (s.g_xfer) { phase = idle }))
      × (sent t.hw.trace ≡ sent s.hw.trace)
unfolding irq_handler on_xrdy on_rrdy on_ardy sent
end_step e s x m = ground arith

run_irqs-append :
    (es : List Irq) (e : Irq) (s : Ll)
    → run_irqs (es ++ e ∷ []) s ≡ (irq_handler e (run_irqs es s)).1
unfolding run_irqs
run_irqs-append [] e s = refl
run_irqs-append (x ∷ es) e s = run_irqs-append es e (irq_handler x s).1

pub run_irqs_end :
    (es : List Irq) (e : Irq) (s : Ll)
    → IsEnd e
    → (run_irqs es s).i2c2_base ≡ true
    → let t = run_irqs (es ++ e ∷ []) s in
      (t.g_xfer ≡ complete (record ((run_irqs es s).g_xfer) { phase = idle }))
      × (sent t.hw.trace ≡ sent (run_irqs es s).hw.trace)
run_irqs_end es e s x m = rw (run_irqs-append es e s) (end_step e (run_irqs es s) x m)
