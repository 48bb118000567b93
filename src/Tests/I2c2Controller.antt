-- ===== src/Tests/I2c2Controller.antt =====
-- The I2C2 driver on a controller that works, on one whose clock never comes, and on one whose
-- clock comes too late.
use linux_device_drivers_hw.Base.{
  ℕ, true, false, ◌≡◌, refl, [], ◌∷◌, ◌++◌, none, some, pos, negsuc, arith, if◌then◌else◌, leb,
}
use linux_device_drivers_hw.Base.Errno.{etimedout}
use linux_device_drivers_hw.I2c2.State.{Irq, idle, sending, receiving, Xfer, Hw, Ll}
use linux_device_drivers_hw.I2c2.State.Frame.{Keeps}
use linux_device_drivers_hw.I2c2.Isr.{irq_handler, run_irqs, on_error, on_xrdy, on_rrdy, on_ardy}
use linux_device_drivers_hw.I2c2.Isr.Safe.{IsSafe, irq_handler-IsSafe}
use linux_device_drivers_hw.I2c2.Isr.Bytes.{IsXrdy, IsRrdy, IsEnd, sent}
use linux_device_drivers_hw.I2c2.Clock.{ensure_clk, poll_bus, wait_bus_free}
use linux_device_drivers_hw.I2c2.Transfer.{
  start_transfer, start_write, begin_transfer, wait_done, finish_transfer, write_byte, read_byte,
  read_block,
}
use linux_device_drivers_hw.I2c2.Transfer.Frame.{accesses-Keeps}
use linux_device_drivers_hw.I2c2.Transfer.Delivery.{
  guarded, transfer_sends, transfer_receives, read_byte_returns,
}
use linux_device_drivers_hw.I2c2.Setup.{init}
use linux_device_drivers_hw.I2c2.Setup.Resources.{
  Inv, initialise, deinitialise, read, calls, calls-Inv,
}
use linux_device_drivers_hw.I2c2.Setup.Timeout.{OffUntil, init_late}

-- Interrupts: the controller asks for a byte, brings the byte 0x68, reports the end.
abbrev pub ask : Irq
ask = record { raw = 16; status = 16; byte = 0 }

abbrev pub bring : Irq
bring = record { raw = 8; status = 8; byte = 0x68 }

abbrev pub end : Irq
end = record { raw = 4; status = 4; byte = 0 }

-- The clock reads as on, the bus as free, and the two waits of a register read get what they need.
abbrev working : ℕ → Hw
working now = record {
  reply = λ t r. if leb 0 0 then 2 else 0;
  irqs = λ t. if leb t 10 then ask ∷ end ∷ [] else bring ∷ end ∷ [];
  ioremap_ok = λ t. true;
  request_ret = λ t. pos 0;
  now = now;
  trace = [];
  maps = 2;
  handlers = 1;
  faulted = false;
}

abbrev pub blank : Xfer
blank = record { phase = idle; error = pos 0; buf = none; len = 0; idx = 0; done = 0 }

abbrev pub ready : Ll
ready = record {
  cm_per_base = true;
  i2c2_base = true;
  g_i2c2_ready = true;
  g_i2c2_irq = pos 30;
  g_xfer = blank;
  locked = false;
  hw = working 0;
}

-- Before the first call of the module.
abbrev pub boot : Ll
boot = record ready {
  cm_per_base = false;
  i2c2_base = false;
  g_i2c2_ready = false;
  g_i2c2_irq = negsuc 0;
  hw = record (working 0) { maps = 0; handlers = 0 };
}

-- A clock that becomes functional at moment `m`, not enabled before.
abbrev slow_clock : ℕ → Ll
slow_clock m = record ready {
  g_i2c2_ready = false;
  hw = record (working 0) { reply = λ t r. if leb m t then 0 else 0x30000; handlers = 0 };
}

ask-IsXrdy : IsXrdy ask
ask-IsXrdy = (((λ h. absurd (omega arith)), refl, refl, refl), refl)

bring-IsRrdy : IsRrdy bring
bring-IsRrdy = (((λ h. absurd (omega arith)), refl, refl, refl), refl)

end-IsEnd : IsEnd end
end-IsEnd = ((λ h. absurd (omega arith)), refl, refl, refl, refl, refl)

-- In the middle of a read of two bytes.
abbrev reading : Ll
reading = record ready {
  g_xfer = record {
    phase = receiving;
    error = pos 0;
    buf = some (1 ∷ 2 ∷ []);
    len = 2;
    idx = 1;
    done = 0;
  };
}

irq_handler-IsSafe_example : IsSafe (irq_handler bring reading).1.g_xfer
irq_handler-IsSafe_example =
    irq_handler-IsSafe bring reading
      (record { bounded = omega arith; small = omega arith; holds = omega arith; code = refl })

-- A controller that asks for two bytes, and one that brings two.
abbrev writing : Ll
writing = record ready { hw = record (working 0) { irqs = λ t. ask ∷ ask ∷ end ∷ [] } }

abbrev bringing : Ll
bringing = record ready { hw = record (working 0) { irqs = λ t. bring ∷ bring ∷ end ∷ [] } }

transfer_sends_example :
    let r = start_transfer 0x68 (some (0x6b ∷ 1 ∷ [])) 2 sending 0x8603 writing in
    (r.0 ≡ (pos 0, some (0x6b ∷ 1 ∷ [])))
    × (sent r.1.hw.trace ≡ sent (guarded writing).hw.trace ++ 0x6b ∷ 1 ∷ [])
unfolding ensure_clk wait_bus_free poll_bus
transfer_sends_example =
    transfer_sends 0x68 (0x6b ∷ 1 ∷ []) 2 0x8603 writing (ask ∷ ask ∷ []) end (omega arith)
      (omega arith) refl (omega arith) (ask-IsXrdy, (ask-IsXrdy, tt)) end-IsEnd refl (refl, refl)
      refl

transfer_receives_example :
    (start_transfer 0x68 (some (0 ∷ 0 ∷ 7 ∷ [])) 2 receiving 0x8403 bringing).0
    ≡ (pos 0, some (0x68 ∷ 0x68 ∷ 7 ∷ []))
unfolding ensure_clk wait_bus_free poll_bus
transfer_receives_example =
    transfer_receives 0x68 (0 ∷ 0 ∷ 7 ∷ []) 2 0x8403 bringing (bring ∷ bring ∷ []) end (omega arith)
      (omega arith) refl (omega arith) (bring-IsRrdy, (bring-IsRrdy, tt)) end-IsEnd refl
      (refl, refl) refl

read_byte_returns_example : (read_byte 0x68 0x75 ready).0 ≡ pos 0x68
unfolding ensure_clk wait_bus_free poll_bus start_write start_transfer begin_transfer wait_done
    finish_transfer run_irqs irq_handler on_error on_xrdy on_rrdy on_ardy
read_byte_returns_example =
    read_byte_returns 0x68 0x75 ready ask bring end end refl refl ask-IsXrdy bring-IsRrdy end-IsEnd
      end-IsEnd (refl, refl) refl (refl, refl) refl

accesses-Keeps_example :
    Keeps ready (write_byte 0x68 0x6b 1 ready).1
    × Keeps ready (read_byte 0x68 0x6b ready).1
    × Keeps ready (read_block 0x68 0x6b 2 (some (0 ∷ 0 ∷ [])) ready).1
accesses-Keeps_example = accesses-Keeps 0x68 0x6b 1 2 (some (0 ∷ 0 ∷ [])) ready refl

boot-Inv : Inv boot
boot-Inv = record {
  no_fault = refl;
  maps_known = refl;
  handler_known = refl;
  free = refl;
  order = λ h. cc;
  ready_mapped = λ h. cc;
  ready_irq = λ h. cc;
}

calls-Inv_example : Inv (calls (initialise 100 (pos 30) ∷ read 0x68 0x75 ∷ deinitialise ∷ []) boot)
calls-Inv_example =
    calls-Inv (initialise 100 (pos 30) ∷ read 0x68 0x75 ∷ deinitialise ∷ []) boot boot-Inv

slow_clock-OffUntil : (m : ℕ) → OffUntil (slow_clock m).hw 2 m
slow_clock-OffUntil m i ge below = ground arith

init_late_example : (init 100 (pos 30) (slow_clock 2000)).0 ≡ etimedout
init_late_example =
    init_late 100 (pos 30) 2000 (slow_clock 2000) refl refl refl refl refl
      (slow_clock-OffUntil 2000) refl
