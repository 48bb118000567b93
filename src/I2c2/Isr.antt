-- ===== src/I2c2/Isr.antt =====
-- i2c2_ll_irq_handler. Its register reads are those of the interrupt that it serves.
pub mod Safe
pub mod Frame
pub mod Bytes
use linux_device_drivers_hw.Base.{
  ℕ, ◌+◌, ◌%◌, ◌^◌, Bool, true, false, not, ◌&&◌, ◌||◌, List, [], ◌∷◌, Option, none, some,
  if◌then◌else◌, ltb, ◌==◌, test_bit, get_or, set,
}
use linux_device_drivers_hw.Base.Errno.{enxio, eagain}
use linux_device_drivers_hw.I2c2.Regs.{irqstatus_raw, irqstatus, i2c_data}
use linux_device_drivers_hw.I2c2.Regs.IrqBit
use linux_device_drivers_hw.I2c2.State.{
  Access, rd, wr, Irq, Phase, idle, sending, receiving, Ll, record_access, complete,
}

pub data IrqReturn : Type 0 where
  irq_none irq_handled : IrqReturn

abbrev is_sending : Phase → Bool
is_sending sending = true
is_sending _ = false

abbrev is_receiving : Phase → Bool
is_receiving receiving = true
is_receiving _ = false

abbrev log : Access → Ll → Ll
log a s = record_access a s.i2c2_base s

-- NACK or arbitration lost: give up the transfer.
unfoldable pub on_error : Irq → Ll → Ll
on_error e s =
    let x = record (s.g_xfer) {
      error = if test_bit e.status IrqBit.nack then enxio else eagain;
      phase = idle;
    } in
    let s1 = log (wr irqstatus (2 ^ 1 + 2 ^ 0)) (record s { g_xfer = x }) in
    record s1 { g_xfer = complete x }

-- The byte for I2C_DATA: the next of the buffer, or a dummy 0.
send_next : Option (List ℕ) → Ll → Ll
send_next none s = log (wr i2c_data 0) s
send_next (some b) s =
    if ltb s.g_xfer.idx s.g_xfer.len
    then log (wr i2c_data (get_or b s.g_xfer.idx 0))
        (record s { g_xfer = record (s.g_xfer) { idx = (s.g_xfer.idx + 1) % 256 } })
    else log (wr i2c_data 0) s

unfoldable pub on_xrdy : Irq → Ll → Ll
unfolding send_next
on_xrdy e s =
    if test_bit e.status IrqBit.xrdy && is_sending s.g_xfer.phase
    then log (wr irqstatus (2 ^ 4)) (send_next s.g_xfer.buf s)
    else s

-- The byte of I2C_DATA goes to the buffer, or is dropped.
receive_next : Option (List ℕ) → ℕ → Ll → Ll
receive_next none byte s = log (rd i2c_data byte) s
receive_next (some b) byte s =
    let s1 = log (rd i2c_data byte) s in
    if ltb s.g_xfer.idx s.g_xfer.len
    then record s1 {
      g_xfer = record (s.g_xfer) {
        buf = some (set b s.g_xfer.idx (byte % 256));
        idx = (s.g_xfer.idx + 1) % 256;
      };
    }
    else s1

unfoldable pub on_rrdy : Irq → Ll → Ll
unfolding receive_next
on_rrdy e s =
    if test_bit e.status IrqBit.rrdy && is_receiving s.g_xfer.phase
    then log (wr irqstatus (2 ^ 3)) (receive_next s.g_xfer.buf e.byte s)
    else s

unfoldable pub on_ardy : Irq → Ll → Ll
on_ardy e s =
    let s1 = log (wr irqstatus (2 ^ 2)) s in
    if test_bit e.status IrqBit.ardy
    then record s1 { g_xfer = complete (record (s.g_xfer) { phase = idle }) }
    else s

unfoldable pub irq_handler : Irq → Ll → IrqReturn × Ll
irq_handler e s =
    let s2 = log (rd irqstatus e.status) (log (rd irqstatus_raw e.raw) s) in
    if not s.i2c2_base
    then (irq_none, s)
    else if e.raw == 0
    then (irq_none, s2)
    else if test_bit e.status IrqBit.nack || test_bit e.status IrqBit.al
    then (irq_handled, on_error e s2)
    else (irq_handled, on_ardy e (on_rrdy e (on_xrdy e s2)))

-- The interrupts that arrive while the driver sleeps, in order.
unfoldable pub run_irqs : List Irq → Ll → Ll
run_irqs [] s = s
run_irqs (e ∷ es) s = run_irqs es (irq_handler e s).1
