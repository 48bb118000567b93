-- ===== src/Mpu6050/Bus.antt =====
-- What the sensor's driver uses of i2c2_ll.h: register accesses with their results, as an
-- interface, and the I2C2 controller as an implementation of it.
use linux_device_drivers_hw.Base.{
  ℕ, ◌≤◌, ◌<◌, true, false, not, ◌||◌, ◌≡◌, refl, List, [], ◌∷◌, Option, none, some, ℤ, arith,
  is_zero, is_pos, if_keeps, length, All, ◌==◌,
}
use linux_device_drivers_hw.I2c2.State.{Ll}
use linux_device_drivers_hw.I2c2.Isr.Safe.{Holds}
use linux_device_drivers_hw.I2c2.Transfer.{start_write, write_byte, read_byte, read_block, is_null}
use linux_device_drivers_hw.I2c2.Transfer.Range.{
  IsByteOrError, IsSound, read_byte_range, start_write-IsSound, start_read-IsSound,
}

-- An array of `len` bytes at least.
abbrev pub IsBlock : ℕ → List ℕ → Type 0
IsBlock len b = (len ≤ length b) × All (λ v. v < 256) b

pub record RegBus : Type 1 where
  pub State : Type 0
  pub write : ℕ → ℕ → ℕ → State → ℤ × State
  pub read : ℕ → ℕ → State → ℤ × State
  pub block : ℕ → ℕ → ℕ → List ℕ → State → (ℤ × List ℕ) × State
  pub write_sign :
      (addr reg val : ℕ) (s : State)
      → reg < 256
      → val < 256
      → is_pos (write addr reg val s).0 ≡ false
  pub read_range : (addr reg : ℕ) (s : State) → reg < 256 → IsByteOrError (read addr reg s).0
  pub block_sign :
      (addr reg len : ℕ) (b : List ℕ) (s : State)
      → reg < 256
      → len < 256
      → IsBlock len b
      → is_pos (block addr reg len b s).0.0 ≡ false
  pub block_bytes :
      (addr reg len : ℕ) (b : List ℕ) (s : State)
      → reg < 256
      → len < 256
      → IsBlock len b
      → IsBlock len (block addr reg len b s).0.1

-- The caller's array afterwards: without a pointer to it, the transfer has left it alone.
abbrev or_else : Option (List ℕ) → List ℕ → List ℕ
or_else none b = b
or_else (some c) b = c

or_else-IsBlock :
    (len : ℕ) (r : Option (List ℕ)) (b : List ℕ)
    → Holds r len
    → IsBlock len b
    → IsBlock len (or_else r b)
or_else-IsBlock len none b h hb = hb
or_else-IsBlock len (some c) b h hb = h

read_block-IsSound :
    (addr reg len : ℕ) (b : List ℕ) (s : Ll)
    → reg < 256
    → len < 256
    → IsBlock len b
    → IsSound len (read_block addr reg len (some b) s).0
unfolding read_block
read_block-IsSound addr reg len b s hr hl hb =
    let s1 = record s { locked = true } in
    let w = start_write addr (some (reg ∷ [])) 1 s1 in
    let ws = start_write-IsSound addr (some (reg ∷ [])) 1 s1 (omega arith) (omega arith) in
    let rs = start_read-IsSound addr (some b) len w.1 hb hl in
    if_keeps (λ (r : (ℤ × Option (List ℕ)) × Ll). IsSound len r.0) (not s.g_i2c2_ready)
      (λ _. (refl, hb))
      (λ _.
        if_keeps (λ (r : (ℤ × Option (List ℕ)) × Ll). IsSound len r.0)
          (is_null {A = List ℕ} (some b) || len == 0) (λ _. (refl, hb))
          (λ _.
            if_keeps (λ (m : Ll → (ℤ × Option (List ℕ)) × Ll). IsSound len (m w.1).0)
              (not (is_zero w.0.0)) (λ _. (ws.0, hb)) (λ _. rs)))

pub write_byte-sign :
    (addr reg val : ℕ) (s : Ll)
    → reg < 256
    → val < 256
    → is_pos (write_byte addr reg val s).0 ≡ false
unfolding write_byte
write_byte-sign addr reg val s hr hv =
    let s1 = record s { locked = true } in
    let ws =
      start_write-IsSound addr (some (reg ∷ val ∷ [])) 2 s1 (omega arith, (hr, (hv, tt)))
        (omega arith) in
    if_keeps (λ (r : ℤ × Ll). is_pos r.0 ≡ false) (not s.g_i2c2_ready) (λ _. refl) (λ _. ws.0)

unfoldable pub i2c2_block : ℕ → ℕ → ℕ → List ℕ → Ll → (ℤ × List ℕ) × Ll
i2c2_block addr reg len b s =
    let r = read_block addr reg len (some b) s in ((r.0.0, or_else r.0.1 b), r.1)

pub i2c2_block-sign :
    (addr reg len : ℕ) (b : List ℕ) (s : Ll)
    → reg < 256
    → len < 256
    → IsBlock len b
    → is_pos (i2c2_block addr reg len b s).0.0 ≡ false
unfolding i2c2_block
i2c2_block-sign addr reg len b s hr hl hb = (read_block-IsSound addr reg len b s hr hl hb).0

pub i2c2_block-bytes :
    (addr reg len : ℕ) (b : List ℕ) (s : Ll)
    → reg < 256
    → len < 256
    → IsBlock len b
    → IsBlock len (i2c2_block addr reg len b s).0.1
unfolding i2c2_block
i2c2_block-bytes addr reg len b s hr hl hb =
    let r = read_block addr reg len (some b) s in
    or_else-IsBlock len r.0.1 b (read_block-IsSound addr reg len b s hr hl hb).1 hb

-- The I2C2 controller serves the sensor's driver.
abbrev pub i2c2_bus : RegBus
i2c2_bus = record {
  State = Ll;
  write = write_byte;
  read = read_byte;
  block = i2c2_block;
  write_sign = write_byte-sign;
  read_range = read_byte_range;
  block_sign = i2c2_block-sign;
  block_bytes = i2c2_block-bytes;
}
