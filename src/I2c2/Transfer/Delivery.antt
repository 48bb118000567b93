-- ===== src/I2c2/Transfer/Delivery.antt =====
-- Whole transfers on a bus that answers: the guards pass, every byte has its interrupt, and the
-- last interrupt reports the end.
use linux_device_drivers_hw.Base.{
  ℕ, ◌+◌, ◌%◌, ◌≤◌, ◌<◌, Bool, true, false, ◌≡◌, ◌∙◌, ap, ap₂, refl, List, [], ◌∷◌, ◌++◌, some, pos,
  arith, length, take, drop, All,
}
use linux_device_drivers_hw.I2c2.State.{Irq, Phase, idle, sending, receiving, Xfer, Ll, complete}
use linux_device_drivers_hw.I2c2.Isr.{run_irqs}
use linux_device_drivers_hw.I2c2.Isr.Bytes.{
  IsXrdy, IsRrdy, sent, bytes, run_irqs-sends, run_irqs-receives, IsEnd, run_irqs_end,
}
use linux_device_drivers_hw.I2c2.Clock.{ensure_clk, wait_bus_free}
use linux_device_drivers_hw.I2c2.Clock.Quiet.{ensure_clk-Quiet, wait_bus_free-Quiet}
use linux_device_drivers_hw.I2c2.Transfer.Frame.{start_write-Keeps}
use linux_device_drivers_hw.I2c2.Transfer.{
  wait_done, begin_transfer, finish_transfer, start_transfer, start_write, start_read, read_byte,
}

-- The state behind both guards, and that they pass.
abbrev pub guarded : Ll → Ll
guarded s = (wait_bus_free (ensure_clk s).1).1

abbrev IsClear : Ll → Type 0
IsClear s = ((ensure_clk s).0 ≡ pos 0) × ((wait_bus_free (ensure_clk s).1).0 ≡ pos 0)

-- The interrupts of the wait of a transfer that starts at `s`.
abbrev Delivers : Ll → List Irq → Irq → Type 0
Delivers s es e = s.hw.irqs ((guarded s).hw.now + 4) ≡ es ++ e ∷ []

start_transfer-clear :
    (addr : ℕ) (b : List ℕ) (len : ℕ) (phase : Phase) (flags : ℕ) (s : Ll)
    → 0 < len
    → IsClear s
    → let t = wait_done (begin_transfer addr (some b) len phase flags (guarded s)).1 in
      let f = finish_transfer t.0 t.1 in
      start_transfer addr (some b) len phase flags s ≡ ((f.0, f.1.g_xfer.buf), f.1)
unfolding start_transfer
start_transfer-clear addr b len phase flags s pos_len c = ground arith

finish_transfer-completed :
    (c : Bool) (s : Ll) → c ≡ true → finish_transfer c s ≡ (s.g_xfer.error, s)
unfolding finish_transfer
finish_transfer-completed true s h = refl
finish_transfer-completed false s h = cc

-- A wait whose interrupts leave exactly one completion ends with it.
wait_done-ends :
    (s : Ll) (x : Xfer)
    → (run_irqs (s.hw.irqs s.hw.now) s).g_xfer ≡ complete x
    → x.done ≡ 0
    → ((wait_done s).0 ≡ true)
      × ((wait_done s).1.g_xfer.buf ≡ x.buf)
      × ((wait_done s).1.g_xfer.error ≡ x.error)
      × ((wait_done s).1.hw.trace ≡ (run_irqs (s.hw.irqs s.hw.now) s).hw.trace)
unfolding wait_done
wait_done-ends s x e d = ground arith

module _ (addr : ℕ) (b : List ℕ) (len : ℕ) (flags : ℕ) (s : Ll) (es : List Irq) (e : Irq) where
  -- What holds at the start of the wait.
  begun :
      (phase : Phase)
      → s.i2c2_base ≡ true
      → Delivers s es e
      → let t = (begin_transfer addr (some b) len phase flags (guarded s)).1 in
        (t.i2c2_base ≡ true)
        × (t.g_xfer
            ≡ record { phase = phase; error = pos 0; buf = some b; len = len; idx = 0; done = 0 })
        × (t.hw.irqs t.hw.now ≡ es ++ e ∷ [])
        × (sent t.hw.trace ≡ sent (guarded s).hw.trace)
  unfolding begin_transfer sent
  begun phase m d =
      let q = ensure_clk-Quiet s in
      let r = wait_bus_free-Quiet (ensure_clk s).1 in
      (ground (arith, q, r), refl, ground (arith, q, r), refl)

  -- `i2c2_start_transfer` of 1 to 255 bytes in the sending phase, on a mapped controller and a
  -- clear bus: when the controller asks for the `len` bytes and then reports the end, the result
  -- is 0, the array is as it was, and its first `len` bytes have gone out, in order.
  pub transfer_sends :
      0 < len
      → len < 256
      → length es ≡ len
      → len ≤ length b
      → All IsXrdy es
      → IsEnd e
      → s.i2c2_base ≡ true
      → IsClear s
      → Delivers s es e
      → let r = start_transfer addr (some b) len sending flags s in
        (r.0 ≡ (pos 0, some b)) × (sent r.1.hw.trace ≡ sent (guarded s).hw.trace ++ take len b)
  transfer_sends pos_len small n fits all x m c d =
      let (m', xf, iq, tr) = begun sending m d in
      let t = (begin_transfer addr (some b) len sending flags (guarded s)).1 in
      let (tr2, xf2, m2) =
        run_irqs-sends es t b all m' (ground arith) (ground arith) (ground arith) (ground arith)
          (ground arith) in
      let (xf3, tr3) = run_irqs_end es e t x m2 in
      let x4 = record ((run_irqs es t).g_xfer) { phase = idle } in
      let (done, bf, er, tr4) = wait_done-ends t x4 (rw iq xf3) (ground arith) in
      rw
        (
          start_transfer-clear addr b len sending flags s pos_len c,
          finish_transfer-completed (wait_done t).0 (wait_done t).1 done,
        )
        (
          ground arith,
          ap sent tr4
              ∙ ap (λ l. sent (run_irqs l t).hw.trace) iq
              ∙ tr3
              ∙ tr2
              ∙ ap₂ ◌++◌ tr (ap₂ (λ k i. take k (drop i b)) n (ap Xfer.idx xf)),
        )

  -- `i2c2_start_transfer` of 1 to 255 bytes in the receiving phase, on a mapped controller and a
  -- clear bus: when the controller brings `len` bytes and then reports the end, the result is 0,
  -- and those bytes stand at the front of the array, in order, with the rest of it as it was.
  pub transfer_receives :
      0 < len
      → len < 256
      → length es ≡ len
      → len ≤ length b
      → All IsRrdy es
      → IsEnd e
      → s.i2c2_base ≡ true
      → IsClear s
      → Delivers s es e
      → (start_transfer addr (some b) len receiving flags s).0
        ≡ (pos 0, some (bytes es ++ drop len b))
  transfer_receives pos_len small n fits all x m c d =
      let (m', xf, iq, tr) = begun receiving m d in
      let t = (begin_transfer addr (some b) len receiving flags (guarded s)).1 in
      let (xf2, m2) =
        run_irqs-receives es t b all m' (ground arith) (ground arith) (ground arith) (ground arith)
          (ground arith) in
      let (xf3, tr3) = run_irqs_end es e t x m2 in
      let x4 = record ((run_irqs es t).g_xfer) { phase = idle } in
      let (done, bf, er, tr4) = wait_done-ends t x4 (rw iq xf3) (ground arith) in
      let start : take t.g_xfer.idx b ≡ [] = ap (λ i. take i b) (ap Xfer.idx xf) in
      let end : t.g_xfer.idx + length es ≡ len = ground arith in
      rw
        (
          start_transfer-clear addr b len receiving flags s pos_len c,
          finish_transfer-completed (wait_done t).0 (wait_done t).1 done,
        )
        (ap₂ (λ r o. (r, o)) (ground arith)
          (bf ∙ ap Xfer.buf xf2 ∙ ap₂ (λ l i. some (l ++ (bytes es ++ drop i b))) start end))

start_write_sends :
    (addr reg : ℕ) (s : Ll) (ask e : Irq)
    → s.i2c2_base ≡ true
    → IsXrdy ask
    → IsEnd e
    → IsClear s
    → Delivers s (ask ∷ []) e
    → (start_write addr (some (reg ∷ [])) 1 s).0 ≡ (pos 0, some (reg ∷ []))
unfolding start_write
start_write_sends addr reg s ask e m a x c d =
    (transfer_sends addr (reg ∷ []) 1 0x8603 s (ask ∷ []) e (omega arith) (omega arith) refl
      (omega arith) (a, tt) x m c d).0

start_read_receives :
    (addr v : ℕ) (s : Ll) (bring e : Irq)
    → s.i2c2_base ≡ true
    → IsRrdy bring
    → IsEnd e
    → IsClear s
    → Delivers s (bring ∷ []) e
    → (start_read addr (some (v ∷ [])) 1 s).0 ≡ (pos 0, some (bring.byte % 256 ∷ []))
unfolding start_read
start_read_receives addr v s bring e m b x c d =
    transfer_receives addr (v ∷ []) 1 0x8403 s (bring ∷ []) e (omega arith) (omega arith) refl
      (omega arith) (b, tt) x m c d

-- `i2c2_ll_read_byte`, called while initialised and mapped, on a bus that is clear at both
-- transfers: when the controller asks for one byte and reports the end, and then brings one byte
-- and reports the end, the result is that byte.
pub read_byte_returns :
    (addr reg : ℕ) (s : Ll) (ask bring e1 e2 : Irq)
    → s.g_i2c2_ready ≡ true
    → s.i2c2_base ≡ true
    → IsXrdy ask
    → IsRrdy bring
    → IsEnd e1
    → IsEnd e2
    → let s1 = record s { locked = true } in
      let s2 = (start_write addr (some (reg ∷ [])) 1 s1).1 in
      IsClear s1
      → Delivers s1 (ask ∷ []) e1
      → IsClear s2
      → Delivers s2 (bring ∷ []) e2
      → (read_byte addr reg s).0 ≡ pos (bring.byte % 256)
unfolding read_byte
read_byte_returns addr reg s ask bring e1 e2 ready m a b x1 x2 c1 d1 c2 d2 =
    let s1 = record s { locked = true } in
    let s2 = (start_write addr (some (reg ∷ [])) 1 s1).1 in
    let w = start_write_sends addr reg s1 ask e1 m a x1 c1 d1 in
    let k = start_write-Keeps addr (some (reg ∷ [])) 1 s1 in
    let r = start_read_receives addr reg s2 bring e2 (k.same_i2c2 ∙ m) b x2 c2 d2 in
    ground (arith, w, r)
