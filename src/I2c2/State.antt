-- ===== src/I2c2/State.antt =====
-- The globals of i2c2_ll.c, the hardware and kernel that they meet, and the register accessors.
-- What hardware and kernel answer is arbitrary: `reply`, `irqs`, `ioremap_ok` and `request_ret`
-- give the answer at each moment, and a moment passes with every access, delay and kernel call.
pub mod Frame
use linux_device_drivers_hw.Base.{
  ℕ, zero, suc, ◌+◌, ◌-◌, ◌*◌, ◌/◌, ◌%◌, Bool, true, false, not, ◌||◌, List, [], ◌∷◌, Option, none,
  ℤ, if◌then◌else◌, to_nat,
}
use linux_device_drivers_hw.I2c2.Regs.{Reg, clkctrl}

-- What the driver does to the outside, as the trace records it.
pub data Access : Type 0 where
  rd : Reg → ℕ → Access
  wr : Reg → ℕ → Access
  delay : ℕ → Access

-- One interrupt: what the three registers read while the handler runs.
pub record Irq : Type 0 where
  pub raw : ℕ
  pub status : ℕ
  pub byte : ℕ

pub data Phase : Type 0 where
  idle sending receiving : Phase

-- `struct i2c2_ll_xfer`. `buf` is the caller's array (none for NULL), so a caller reads its array
-- there after a transfer; `done` counts the completions not yet waited for.
pub record Xfer : Type 0 where
  pub phase : Phase
  pub error : ℤ
  pub buf : Option (List ℕ)
  pub len : ℕ
  pub idx : ℕ
  pub done : ℕ

pub record Hw : Type 0 where
  pub reply : ℕ → Reg → ℕ
  pub irqs : ℕ → List Irq
  pub ioremap_ok : ℕ → Bool
  pub request_ret : ℕ → ℤ
  pub now : ℕ
  -- newest first
  pub trace : List Access
  -- live register mappings, and registered interrupt handlers
  pub maps : ℕ
  pub handlers : ℕ
  -- an access went through a NULL base
  pub faulted : Bool

-- The file's globals; a base is `true` when mapped, and `locked` is `g_xfer_lock`.
pub record Ll : Type 0 where
  pub cm_per_base : Bool
  pub i2c2_base : Bool
  pub g_i2c2_ready : Bool
  pub g_i2c2_irq : ℤ
  pub g_xfer : Xfer
  pub locked : Bool
  pub hw : Hw

abbrev pub M : Type 0 → Type 0
M A = Ll → A × Ll

abbrev pub pure : {A : Type 0} → A → M A
pure a s = (a, s)

infixl 5 ◌>>=◌ ◌>>◌
abbrev pub ◌>>=◌ : {A B : Type 0} → M A → (A → M B) → M B
◌>>=◌ m f s = let (a, s') = m s in f a s'

abbrev pub ◌>>◌ : {B : Type 0} → M (Unit {0}) → M B → M B
m >> k = m >>= λ _. k

-- A moment passes, and the trace grows.
abbrev pub record_access : Access → Bool → Ll → Ll
record_access a mapped s = record s {
  hw = record (s.hw) {
    now = s.hw.now + 1;
    trace = a ∷ s.hw.trace;
    faulted = s.hw.faulted || not mapped;
  };
}

unfoldable pub i2c_r : Reg → M ℕ
i2c_r reg s = let v = s.hw.reply s.hw.now reg in (v, record_access (rd reg v) s.i2c2_base s)

unfoldable pub i2c_w : Reg → ℕ → M (Unit {0})
i2c_w reg v s = (tt, record_access (wr reg v) s.i2c2_base s)

unfoldable pub cm_r : M ℕ
cm_r s = let v = s.hw.reply s.hw.now clkctrl in (v, record_access (rd clkctrl v) s.cm_per_base s)

unfoldable pub cm_w : ℕ → M (Unit {0})
cm_w v s = (tt, record_access (wr clkctrl v) s.cm_per_base s)

unfoldable pub udelay : ℕ → M (Unit {0})
udelay us s = (tt, record_access (delay us) true s)

abbrev pub set_xfer : Xfer → M (Unit {0})
set_xfer x s = (tt, record s { g_xfer = x })

-- `complete(&g_xfer.done)`
abbrev pub complete : Xfer → Xfer
complete x = record x { done = x.done + 1 }
