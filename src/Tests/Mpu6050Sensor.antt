-- ===== src/Tests/Mpu6050Sensor.antt =====
-- The sensor's driver over a bus behind which the FIFO is a list of bytes, and over the I2C2
-- controller.
use linux_device_drivers_hw.Base.{
  ℕ, zero, suc, ◌≤◌, ◌<◌, ◌==◌, true, false, ◌≡◌, refl, ◌⊎◌, inr, List, [], ◌∷◌, Option, some, ℤ,
  pos, negsuc, arith, if◌then◌else◌, leb, drop, take, is_pos, length, All, replicate, length-take,
  if_keeps,
}
use linux_device_drivers_hw.Base.Errno.{eio}
use linux_device_drivers_hw.Mpu6050.Config.{default_config}
use linux_device_drivers_hw.Mpu6050.Convert.{
  Raw, IsRaw, accel_full_scale, gyro_full_scale, raw_to_sample_fixed, IsScaled,
  raw_to_sample_fixed-IsScaled,
}
use linux_device_drivers_hw.Mpu6050.Bus.{RegBus, IsBlock}
use linux_device_drivers_hw.Mpu6050.Device
use linux_device_drivers_hw.Mpu6050.Device.{Dev, mpu_ok, mpu_err, init}
use linux_device_drivers_hw.Mpu6050.Device.Program.{traced, IsApplied, init_done}
use linux_device_drivers_hw.Mpu6050.Fifo.{read_fifo_bytes}
use linux_device_drivers_hw.Mpu6050.Fifo.Slices.{All-take, All-drop}
use linux_device_drivers_hw.Mpu6050.Fifo.Chunks.{IsArray, EndsWith, read_fifo_bytes_end}
use linux_device_drivers_hw.Mpu6050.Fifo.Samples.{encode_all}
use linux_device_drivers_hw.Mpu6050.Driver.{Core}
use linux_device_drivers_hw.Mpu6050.Driver.Published.{
  IsConsistent, irq_threads, irq_threads-IsConsistent,
}

-- The bytes of a FIFO.
abbrev pub Bytes : Type 0
Bytes = (l : List ℕ) × All (λ v. v < 256) l

-- The identity, an interrupt with data ready, and two samples in the FIFO.
abbrev pub reg_value : ℕ → ℕ
reg_value reg =
    if reg == 0x75 then 0x68 else if reg == 0x3a then 1 else if reg == 0x73 then 28 else 0

pub reg_value-lt : (reg : ℕ) → reg_value reg < 256
reg_value-lt reg = ground arith

abbrev take_off : ℕ → List ℕ → Bytes → (ℤ × List ℕ) × Bytes
take_off len b s =
    if leb len (length s.0)
    then ((pos 0, take len s.0), (drop len s.0, All-drop (λ v. v < 256) len s.0 s.1))
    else ((eio, b), s)

take_off-sign : (len : ℕ) (b : List ℕ) (s : Bytes) → is_pos (take_off len b s).0.0 ≡ false
take_off-sign len b s =
    if_keeps (λ (r : (ℤ × List ℕ) × Bytes). is_pos r.0.0 ≡ false) (leb len (length s.0)) (λ _. refl)
      (λ _. refl)

take_off-IsBlock :
    (len : ℕ) (b : List ℕ) (s : Bytes) → IsBlock len b → IsBlock len (take_off len b s).0.1
take_off-IsBlock len b s h =
    if_keeps (λ (r : (ℤ × List ℕ) × Bytes). IsBlock len r.0.1) (leb len (length s.0))
      (λ e.
        let k : len ≤ length s.0 = ground arith in
        (omega (arith, length-take len s.0), All-take (λ v. v < 256) len s.0 s.1))
      (λ _. h)

abbrev fifo_bus : RegBus
fifo_bus = record {
  State = Bytes;
  write = λ addr reg val s. (pos 0, s);
  read = λ addr reg s. (pos (reg_value reg), s);
  block = λ addr reg len b s. take_off len b s;
  write_sign = λ addr reg val s hr hv. refl;
  read_range = λ addr reg s hr. inr (reg_value reg, refl, reg_value-lt reg);
  block_sign = λ addr reg len b s hr hl hb. take_off-sign len b s;
  block_bytes = λ addr reg len b s hr hl hb. take_off-IsBlock len b s hb;
}

abbrev pub mpu : Dev
mpu = record { i2c_addr = 0x68; accel_scale = 0; gyro_scale = 0; initialized = true }

abbrev pub flat : Raw
flat = record {
  ax = pos 1;
  ay = negsuc 0;
  az = pos 16384;
  temp = negsuc 520;
  gx = pos 0;
  gy = pos 2;
  gz = negsuc 1;
}

abbrev pub blank : Raw
blank = record {
  ax = pos 0;
  ay = pos 0;
  az = pos 0;
  temp = pos 0;
  gx = pos 0;
  gy = pos 0;
  gz = pos 0;
}

pub flat-IsRaw : IsRaw flat
flat-IsRaw = record {
  ax = (omega arith, omega arith);
  ay = (omega arith, omega arith);
  az = (omega arith, omega arith);
  temp = (omega arith, omega arith);
  gx = (omega arith, omega arith);
  gy = (omega arith, omega arith);
  gz = (omega arith, omega arith);
}

raw_to_sample_fixed-IsScaled_example :
    IsScaled (accel_full_scale 0) (gyro_full_scale 24) (raw_to_sample_fixed 0 24 flat)
raw_to_sample_fixed-IsScaled_example = raw_to_sample_fixed-IsScaled 0 24 flat flat-IsRaw

-- The bytes of one sample, and room for them.
abbrev one_sample : Bytes
one_sample = (encode_all (flat ∷ []), omega arith)

abbrev pub room : List ℕ
room = replicate 14 0

room-IsArray : IsArray 14 room
room-IsArray = (refl, omega arith)

init_done_example :
    let r = init (traced fifo_bus) mpu default_config (one_sample, []) in
    IsApplied default_config r.0.1 r.1.1
unfolding init Device.reset Device.reset_fifo Device.configure Device.write_reg default_config
init_done_example = init_done fifo_bus mpu default_config one_sample refl

read_fifo_bytes_end_example : EndsWith 14 14 (read_fifo_bytes fifo_bus mpu room 14 one_sample).0
read_fifo_bytes_end_example = read_fifo_bytes_end fifo_bus mpu room 14 one_sample room-IsArray

abbrev malloc : ℕ → Option (List ℕ)
malloc n = some (replicate n 0)

replicate-IsBytes : (n : ℕ) → All (λ v. v < 256) (replicate n 0)
replicate-IsBytes zero = tt
replicate-IsBytes (suc n) = (omega arith, replicate-IsBytes n)

abbrev core : Core fifo_bus
core = record {
  dev = mpu;
  sample = record { valid = true; raw = blank; fixed = raw_to_sample_fixed 0 0 blank };
  irq_counter = 7;
  bus = one_sample;
}

irq_threads-IsConsistent_example :
    let t = irq_threads fifo_bus malloc (blank ∷ flat ∷ []) core in
    IsConsistent t
    × (t.dev ≡ mpu)
    × ((true ≡ false) ⊎ (t.sample.valid ≡ true))
    × (t ≡ irq_threads fifo_bus malloc (flat ∷ blank ∷ []) core)
irq_threads-IsConsistent_example =
    irq_threads-IsConsistent fifo_bus malloc (blank ∷ flat ∷ []) (flat ∷ blank ∷ []) core (inr refl)
      refl
