-- ===== src/I2c2/State/Frame.antt =====
-- What an operation leaves alone that touches at most the transfer, the trace and the time.
use linux_device_drivers_hw.Base.{◌≡◌, arith}
use linux_device_drivers_hw.I2c2.State.{Ll}

pub record Keeps (s t : Ll) : Type 0 where
  pub same_cm : t.cm_per_base ≡ s.cm_per_base
  pub same_i2c2 : t.i2c2_base ≡ s.i2c2_base
  pub same_ready : t.g_i2c2_ready ≡ s.g_i2c2_ready
  pub same_irq : t.g_i2c2_irq ≡ s.g_i2c2_irq
  pub same_lock : t.locked ≡ s.locked
  pub same_reply : t.hw.reply ≡ s.hw.reply
  pub same_irqs : t.hw.irqs ≡ s.hw.irqs
  pub same_maps : t.hw.maps ≡ s.hw.maps
  pub same_handlers : t.hw.handlers ≡ s.hw.handlers
  pub same_fault : t.hw.faulted ≡ s.hw.faulted

pub Keeps-refl : (s : Ll) → Keeps s s
Keeps-refl s = ground arith

pub Keeps-trans : (s t u : Ll) → Keeps s t → Keeps t u → Keeps s u
Keeps-trans s t u p q = ground arith
