-- ===== src/I2c2/Isr/Frame.antt =====
-- The interrupt handler touches the transfer, the registers and the time only, and it signals a
-- completion only together with an idle phase.
use linux_device_drivers_hw.Base.{◌<◌, true, ◌≡◌, ◌∙◌, refl, List, [], ◌∷◌, arith}
use linux_device_drivers_hw.I2c2.State.{Access, Irq, Xfer, idle, Ll}
use linux_device_drivers_hw.I2c2.State.Frame.{Keeps, Keeps-refl, Keeps-trans}
use linux_device_drivers_hw.I2c2.Isr.{
  log, on_error, on_xrdy, on_rrdy, on_ardy, irq_handler, run_irqs,
}
use linux_device_drivers_hw.I2c2.Isr.Safe.{irq_handler_keeps}

log-Keeps : (a : Access) (s : Ll) → s.i2c2_base ≡ true → Keeps s (log a s)
log-Keeps a s m = ground arith

on_error-Keeps : (e : Irq) (s : Ll) → s.i2c2_base ≡ true → Keeps s (on_error e s)
unfolding on_error
on_error-Keeps e s m = ground arith

on_xrdy-Keeps : (e : Irq) (s : Ll) → s.i2c2_base ≡ true → Keeps s (on_xrdy e s)
unfolding on_xrdy
on_xrdy-Keeps e s m = ground arith

on_rrdy-Keeps : (e : Irq) (s : Ll) → s.i2c2_base ≡ true → Keeps s (on_rrdy e s)
unfolding on_rrdy
on_rrdy-Keeps e s m = ground arith

on_ardy-Keeps : (e : Irq) (s : Ll) → s.i2c2_base ≡ true → Keeps s (on_ardy e s)
unfolding on_ardy
on_ardy-Keeps e s m = ground arith

served-Keeps :
    (e : Irq) (s : Ll) → s.i2c2_base ≡ true → Keeps s (on_ardy e (on_rrdy e (on_xrdy e s)))
served-Keeps e s m =
    let x = on_xrdy-Keeps e s m in
    let r = on_rrdy-Keeps e (on_xrdy e s) (ground arith) in
    let a = on_ardy-Keeps e (on_rrdy e (on_xrdy e s)) (ground arith) in
    Keeps-trans _ _ _ x (Keeps-trans _ _ _ r a)

irq_handler-Keeps : (e : Irq) (s : Ll) → Keeps s (irq_handler e s).1
irq_handler-Keeps e s =
    irq_handler_keeps (λ t. Keeps s t) (λ a t m k. Keeps-trans s t _ k (log-Keeps a t m))
      (λ e' t m k. Keeps-trans s t _ k (on_error-Keeps e' t m))
      (λ e' t m k. Keeps-trans s t _ k (served-Keeps e' t m)) e s (Keeps-refl s)

pub run_irqs-Keeps : (es : List Irq) (s : Ll) → Keeps s (run_irqs es s)
unfolding run_irqs
run_irqs-Keeps [] s = Keeps-refl s
run_irqs-Keeps (e ∷ es) s =
    Keeps-trans _ _ _ (irq_handler-Keeps e s) (run_irqs-Keeps es (irq_handler e s).1)

-- A completion that is signalled and not yet consumed finds the phase idle.
abbrev IsSettled : Xfer → Type 0
IsSettled x = 0 < x.done → x.phase ≡ idle

on_xrdy-IsSettled : (e : Irq) (s : Ll) → IsSettled s.g_xfer → IsSettled (on_xrdy e s).g_xfer
unfolding on_xrdy
on_xrdy-IsSettled e s v = ground arith

on_rrdy-IsSettled : (e : Irq) (s : Ll) → IsSettled s.g_xfer → IsSettled (on_rrdy e s).g_xfer
unfolding on_rrdy
on_rrdy-IsSettled e s v = ground arith

on_ardy-IsSettled : (e : Irq) (s : Ll) → IsSettled s.g_xfer → IsSettled (on_ardy e s).g_xfer
unfolding on_ardy
on_ardy-IsSettled e s v = ground arith

on_error-IsSettled : (e : Irq) (s : Ll) → IsSettled (on_error e s).g_xfer
unfolding on_error
on_error-IsSettled e s h = refl

irq_handler-IsSettled :
    (e : Irq) (s : Ll) → IsSettled s.g_xfer → IsSettled (irq_handler e s).1.g_xfer
irq_handler-IsSettled =
    irq_handler_keeps (λ s. IsSettled s.g_xfer) (λ a s _ v. v) (λ e s _ _. on_error-IsSettled e s)
      (λ e s _ v. on_ardy-IsSettled e _ (on_rrdy-IsSettled e _ (on_xrdy-IsSettled e s v)))

pub run_irqs-IsSettled :
    (es : List Irq) (s : Ll) → IsSettled s.g_xfer → IsSettled (run_irqs es s).g_xfer
unfolding run_irqs
run_irqs-IsSettled [] s v = v
run_irqs-IsSettled (e ∷ es) s v =
    run_irqs-IsSettled es (irq_handler e s).1 (irq_handler-IsSettled e s v)

on_xrdy-len : (e : Irq) (s : Ll) → (on_xrdy e s).g_xfer.len ≡ s.g_xfer.len
unfolding on_xrdy
on_xrdy-len e s = ground arith

on_rrdy-len : (e : Irq) (s : Ll) → (on_rrdy e s).g_xfer.len ≡ s.g_xfer.len
unfolding on_rrdy
on_rrdy-len e s = ground arith

on_ardy-len : (e : Irq) (s : Ll) → (on_ardy e s).g_xfer.len ≡ s.g_xfer.len
unfolding on_ardy
on_ardy-len e s = ground arith

on_error-len : (e : Irq) (s : Ll) → (on_error e s).g_xfer.len ≡ s.g_xfer.len
unfolding on_error
on_error-len e s = refl

irq_handler-len : (e : Irq) (s : Ll) → (irq_handler e s).1.g_xfer.len ≡ s.g_xfer.len
irq_handler-len e s =
    irq_handler_keeps (λ t. t.g_xfer.len ≡ s.g_xfer.len) (λ a t _ h. h)
      (λ e' t _ h. on_error-len e' t ∙ h)
      (λ e' t _ h.
        on_ardy-len e' (on_rrdy e' (on_xrdy e' t))
        ∙ on_rrdy-len e' (on_xrdy e' t)
        ∙ on_xrdy-len e' t
        ∙ h)
      e s refl

pub run_irqs-len : (es : List Irq) (s : Ll) → (run_irqs es s).g_xfer.len ≡ s.g_xfer.len
unfolding run_irqs
run_irqs-len [] s = refl
run_irqs-len (e ∷ es) s = run_irqs-len es (irq_handler e s).1 ∙ irq_handler-len e s
