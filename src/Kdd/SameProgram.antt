-- ===== src/Kdd/SameProgram.antt =====
-- The primitives over the I2C core do what those of 09_BeagleBone_lowlevel do over its own
-- controller.
use linux_device_drivers_hw.Base.{
  ℕ, ◌<◌, false, ◌≡◌, inl, inr, refl, List, ◌++◌, some, ℤ, pos, negsuc, is_zero, is_neg, is_pos,
  arith, if◌then◌else◌, if_keeps, ◌==◌, length, length-append, All, All-append, drop, Bool-cases,
}
use linux_device_drivers_hw.Base.Errno.{eio}
use linux_device_drivers_hw.Mpu6050.Config.{Config}
use linux_device_drivers_hw.Mpu6050.Bus.{RegBus, IsBlock}
use linux_device_drivers_hw.Mpu6050.Device.{
  mpu_ok, mpu_err, write_then, Dev, write_reg, reset_fifo, reset, configure, init,
}
use linux_device_drivers_hw.Mpu6050.Fifo.Slices.{All-drop}
use linux_device_drivers_hw.Kdd.{
  I2cCore, Reply, failed, bytes, Mpu, mpu6050_write_reg, mpu6050_kdd_reset_fifo, mpu6050_kdd_reset,
  program_registers, mpu6050_kdd_init,
}

-- A block as an array of the caller: one that is short counts as an error.
abbrev pub into_array : ℕ → List ℕ → Reply → ℤ × List ℕ
into_array len b (failed n) = (negsuc n, b)
into_array len b (bytes c) = if length c == len then (pos 0, c ++ drop len b) else (eio, b)

pub into_array_sign : (len : ℕ) (b : List ℕ) (r : Reply) → is_pos (into_array len b r).0 ≡ false
into_array_sign len b (failed n) = refl
into_array_sign len b (bytes c) = ground arith

pub into_array-IsBlock :
    (len : ℕ) (b : List ℕ) (r : Reply)
    → ((c : List ℕ) → r ≡ bytes c → All (λ v. v < 256) c)
    → IsBlock len b
    → IsBlock len (into_array len b r).1
into_array-IsBlock len b (failed n) h hb = hb
into_array-IsBlock len b (bytes c) h hb =
    if_keeps (λ (t : ℤ × List ℕ). IsBlock len t.1) (length c == len)
      (λ e. (
        omega (arith, length-append c (drop len b), (let k : length c ≡ len = ground arith in k)),
        All-append (λ v. v < 256) c (drop len b) (h c refl) (All-drop (λ v. v < 256) len b hb.1),
      ))
      (λ _. hb)

module _ (B : I2cCore) (client : ℕ) where
  pub write_not_pos :
      (reg val : ℕ) (s : B.State) → is_pos (B.write_byte_data client reg val s).0 ≡ false
  write_not_pos reg val s = ground (arith, B.write_sign client reg val s)

  -- A client of the I2C core as a bus of the sensor's driver.
  abbrev pub client_bus : RegBus
  client_bus = record {
    State = B.State;
    write = λ addr reg val s. B.write_byte_data client reg val s;
    read = λ addr reg s. B.read_byte_data client reg s;
    block = λ addr reg len b s.
        let r = B.read_i2c_block_data client reg len s in (into_array len b r.0, r.1);
    write_sign = λ addr reg val s hr hv. write_not_pos reg val s;
    read_range = λ addr reg s h. B.read_range client reg s;
    block_sign = λ addr reg len b s hr hl hb. into_array_sign len b _;
    block_bytes = λ addr reg len b s hr hl hb.
        into_array-IsBlock len b _ (λ c e. (B.block_fits client reg len s c e).1) hb;
  }

-- The device without its client, and with it.
abbrev pub plain : Mpu → Dev
plain d = record {
  i2c_addr = 0x68;
  accel_scale = d.accel_scale;
  gyro_scale = d.gyro_scale;
  initialized = d.initialized;
}

abbrev pub with_client : ℕ → Dev → Mpu
with_client client d = record {
  client = some client;
  accel_scale = d.accel_scale;
  gyro_scale = d.gyro_scale;
  initialized = d.initialized;
}

-- The two ways in which the primitives test a write.
gate {ℓ} :
    {A : Type ℓ} (x : ℤ) (err after : A)
    → (if is_neg x then err else after)
      ≡ (if is_zero (if is_neg x then x else pos 0) then after else err)
gate (pos n) err after = refl
gate (negsuc n) err after = refl

module _ (B : I2cCore) (client : ℕ) (dev : Mpu) where
  abbrev bus : RegBus
  bus = client_bus B client

  same_reset_fifo :
      (d : Dev) (s : B.State) → mpu6050_kdd_reset_fifo B (some client) s ≡ reset_fifo bus d s
  unfolding mpu6050_kdd_reset_fifo mpu6050_write_reg reset_fifo write_reg
  same_reset_fifo d s = refl

  same_reset : (d : Dev) (s : B.State) → mpu6050_kdd_reset B (some client) s ≡ reset bus d s
  unfolding mpu6050_kdd_reset mpu6050_write_reg reset write_reg
  same_reset d s =
      let f = reset_fifo bus d s in
      let r = B.write_byte_data client 0x6b 0x80 f.1 in
      rw (same_reset_fifo d s) (gate r.0 (mpu_err, r.1) _)

  -- The registers that are written behind the reset.
  abbrev registers : Dev → Config → B.State → ℤ × B.State
  registers d cfg =
      configure bus d cfg
        (λ t. write_then bus d 0x6a cfg.user_ctrl (λ u. (mpu_ok, u)) (bus.read d.i2c_addr 0x3a t).1)

  same_registers :
      (cfg : Config) (s : B.State)
      → program_registers B client cfg s
        ≡ registers
            (record (plain dev) { accel_scale = cfg.accel_scale; gyro_scale = cfg.gyro_scale })
            cfg
            s
  unfolding program_registers mpu6050_write_reg configure write_reg
  same_registers cfg s = refl

  -- mpu6050_kdd_init with a client returns the result of the one of 09_BeagleBone_lowlevel over
  -- that client as its bus, leaves the I2C core the same, and the device too, but that it has the
  -- client.
  pub same_init :
      (cfg : Config) (s : B.State)
      → let r = init bus (plain dev) cfg s in
        mpu6050_kdd_init B client cfg dev s ≡ ((r.0.0, with_client client r.0.1), r.1)
  unfolding mpu6050_kdd_init init
  same_init cfg s =
      let d = record (plain dev) { accel_scale = cfg.accel_scale; gyro_scale = cfg.gyro_scale } in
      let r = reset bus d s in
      elim (Bool-cases (is_zero r.0)) [
        | inl z ↦ rw (same_reset d s) (
            rw (same_registers cfg r.1) (
              rw z (elim (Bool-cases (is_zero (registers d cfg r.1).0)) [
                | inl w ↦ rw w refl
                | inr w ↦ rw w refl
              ])))
        | inr z ↦ rw (same_reset d s) (rw z refl)
      ]
