-- ===== src/Kdd/Through.antt =====
-- The primitives reach the bus through their client alone.
use linux_device_drivers_hw.Base.{
  ℕ, zero, suc, ◌+◌, ◌*◌, ◌/◌, ◌%◌, ◌^◌, ◌-◌, not, ◌≡◌, refl, sym, ap, ◌∙◌, List, [], ◌∷◌, ◌++◌,
  Option, none, some, ℤ, is_neg, is_zero, arith, if_keeps, if◌then◌else◌, ltb, ◌==◌, length,
  replicate, append_assoc, append-nil, pos_part,
}
use linux_device_drivers_hw.Mpu6050.Config.{Config}
use linux_device_drivers_hw.Mpu6050.Convert.{Raw}
use linux_device_drivers_hw.Mpu6050.Device.{mpu_ok}
use linux_device_drivers_hw.Mpu6050.Fifo.{frame, chunk_of}
use linux_device_drivers_hw.Kdd.{
  I2cCore, Reply, failed, bytes, Mpu, mpu6050_write_reg, write_or_err, mpu6050_kdd_reset_fifo,
  mpu6050_kdd_reset, mpu6050_kdd_whoami, program_registers, mpu6050_kdd_init,
}
use linux_device_drivers_hw.Kdd.Fifo.{
  splice, read_fifo_count, mpu6050_kdd_get_fifo_count, after_block, read_rounds, read_bytes,
  mpu6050_read_fifo_bytes, fetch_frames, mpu6050_read_fifo_samples,
}

-- A core that notes the client of each access.
abbrev pub noting : I2cCore → I2cCore
noting B = record {
  State = B.State × List ℕ;
  write_byte_data = λ client reg val s.
      let r = B.write_byte_data client reg val s.0 in (r.0, (r.1, s.1 ++ client ∷ []));
  read_byte_data =
      λ client reg s. let r = B.read_byte_data client reg s.0 in (r.0, (r.1, s.1 ++ client ∷ []));
  read_i2c_block_data = λ client reg len s.
      let r = B.read_i2c_block_data client reg len s.0 in (r.0, (r.1, s.1 ++ client ∷ []));
  write_sign = λ client reg val s. B.write_sign client reg val s.0;
  read_range = λ client reg s. B.read_range client reg s.0;
  block_fits = λ client reg len s b e. B.block_fits client reg len s.0 b e;
}

replicate-add : (k j c : ℕ) → replicate k c ++ replicate j c ≡ replicate (k + j) c
replicate-add zero j c = let e : j ≡ 0 + j = omega arith in ap (λ n. replicate n c) e
replicate-add (suc k) j c =
    let e : suc (k + j) ≡ suc k + j = omega arith in
    ap (λ l. c ∷ l) (replicate-add k j c) ∙ ap (λ n. replicate n c) e

-- All accesses between two states go through one client.
abbrev pub Through : {S : Type 0} → ℕ → S × List ℕ → S × List ℕ → Type 0
Through c s t = (k : ℕ) × (t.1 ≡ s.1 ++ replicate k c)

module _ (B : I2cCore) (c : ℕ) where
  abbrev pub N : I2cCore
  N = noting B

  pub still : (s : N.State) → Through c s s
  still s = (0, sym (append-nil s.1))

  pub follow : (s t u : N.State) → Through c s t → Through c t u → Through c s u
  follow s t u (k, e) (j, f) = (
    k + j,
    f
        ∙ ap (λ l. l ++ replicate j c) e
        ∙ append_assoc s.1 (replicate k c) (replicate j c)
        ∙ ap (λ l. s.1 ++ l) (replicate-add k j c),
  )

  pub once : (s t : N.State) → t.1 ≡ s.1 ++ c ∷ [] → Through c s t
  once s t e = (1, e)

  -- What an operation of the device does.
  abbrev pub Keeps : {X : Type 0} → (N.State → X × N.State) → Type 0
  Keeps op = (s : N.State) → Through c s (op s).1

  write_or_err-Keeps :
      (reg val : ℕ) (rest : N.State → ℤ × N.State)
      → Keeps rest
      → Keeps (write_or_err N (some c) reg val rest)
  unfolding mpu6050_write_reg
  write_or_err-Keeps reg val rest h s =
      let r = mpu6050_write_reg N (some c) reg val s in
      if_keeps (λ (t : ℤ × N.State). Through c s t.1) (is_zero r.0)
        (λ _. follow s r.1 (rest r.1).1 (once s r.1 refl) (h r.1)) (λ _. once s r.1 refl)

  abbrev done : N.State → ℤ × N.State
  done t = (mpu_ok, t)

  abbrev put : ℕ → ℕ → (N.State → ℤ × N.State) → N.State → ℤ × N.State
  put = write_or_err N (some c)

  pub reset_fifo-Keeps : Keeps (mpu6050_kdd_reset_fifo N (some c))
  unfolding mpu6050_kdd_reset_fifo
  reset_fifo-Keeps =
      let last = put 0x6a (2 ^ 6) done in
      write_or_err-Keeps 0x6a 0 (put 0x6a (2 ^ 2) last)
        (write_or_err-Keeps 0x6a (2 ^ 2) last (write_or_err-Keeps 0x6a (2 ^ 6) done still))

  pub reset-Keeps : Keeps (mpu6050_kdd_reset N (some c))
  unfolding mpu6050_kdd_reset
  reset-Keeps s =
      let f = mpu6050_kdd_reset_fifo N (some c) s in
      let r = N.write_byte_data c 0x6b 0x80 f.1 in
      let fr = follow s f.1 r.1 (reset_fifo-Keeps s) (once f.1 r.1 refl) in
      if_keeps (λ (t : ℤ × N.State). Through c s t.1) (is_neg r.0) (λ _. fr)
        (λ _. follow s r.1 (put 0x68 7 done r.1).1 fr (write_or_err-Keeps 0x68 7 done still r.1))

  whoami-Keeps : Keeps (mpu6050_kdd_whoami N (some c))
  unfolding mpu6050_kdd_whoami
  whoami-Keeps s =
      let r = N.read_byte_data c 0x75 s in
      if_keeps (λ (t : (ℤ × Option ℕ) × N.State). Through c s t.1) (is_neg r.0)
        (λ _. once s r.1 refl) (λ _. once s r.1 refl)

  -- The last write, behind the read of INT_STATUS.
  clear_then-Keeps : (val : ℕ) → Keeps (λ s. put 0x6a val done (N.read_byte_data c 0x3a s).1)
  clear_then-Keeps val s =
      let r = (N.read_byte_data c 0x3a s).1 in
      follow s r (put 0x6a val done r).1 (once s r refl) (write_or_err-Keeps 0x6a val done still r)

  registers-Keeps : (cfg : Config) → Keeps (program_registers N c cfg)
  unfolding program_registers
  registers-Keeps cfg =
      let r7 = λ (s : N.State). put 0x6a cfg.user_ctrl done (N.read_byte_data c 0x3a s).1 in
      let r6 = put 0x38 cfg.int_enable r7 in
      let r5 = put 0x37 cfg.int_pin_cfg r6 in
      let r4 = put 0x23 cfg.fifo_en r5 in
      let r3 = put 0x19 cfg.sample_rate_div r4 in
      let r2 = put 0x1a cfg.dlpf_cfg r3 in
      let r1 = put 0x1b cfg.gyro_scale r2 in
      let r0 = put 0x1c cfg.accel_scale r1 in
      write_or_err-Keeps 0x6b 0x01 r0 (
        write_or_err-Keeps 0x1c cfg.accel_scale r1 (
          write_or_err-Keeps 0x1b cfg.gyro_scale r2 (
            write_or_err-Keeps 0x1a cfg.dlpf_cfg r3 (
              write_or_err-Keeps 0x19 cfg.sample_rate_div r4 (
                write_or_err-Keeps 0x23 cfg.fifo_en r5 (
                  write_or_err-Keeps 0x37 cfg.int_pin_cfg r6 (
                    write_or_err-Keeps 0x38 cfg.int_enable r7
                      (clear_then-Keeps cfg.user_ctrl))))))))

  init-Keeps : (cfg : Config) (dev : Mpu) → Keeps (mpu6050_kdd_init N c cfg dev)
  unfolding mpu6050_kdd_init
  init-Keeps cfg dev s =
      let r = mpu6050_kdd_reset N (some c) s in
      if_keeps (λ (t : (ℤ × Mpu) × N.State). Through c s t.1) (is_zero r.0)
        (λ _.
          follow s r.1 (program_registers N c cfg r.1).1 (reset-Keeps s) (registers-Keeps cfg r.1))
        (λ _. reset-Keeps s)

  count-Keeps : (dev : Mpu) → dev.client ≡ some c → Keeps (mpu6050_kdd_get_fifo_count N dev)
  unfolding mpu6050_kdd_get_fifo_count read_fifo_count
  count-Keeps dev e s =
      let hi = N.read_byte_data c 0x72 s in
      let lo = N.read_byte_data c 0x73 hi.1 in
      let P = λ (t : (ℤ × ℕ) × N.State). Through c s t.1 in
      let both = follow s hi.1 lo.1 (once s hi.1 refl) (once hi.1 lo.1 refl) in
      if_keeps P (not dev.initialized) (λ _. still s)
        (λ _. rw e (
          if_keeps P (is_neg hi.0) (λ _. once s hi.1 refl)
            (λ _. if_keeps P (is_neg lo.0) (λ _. both) (λ _. both))))

  after_block-Keeps :
      (q : Reply) (chunk offset : ℕ) (buf : List ℕ) (s t : N.State)
      (next : List ℕ → (ℤ × List ℕ) × N.State)
      → Through c s t
      → ((b : List ℕ) → Through c t (next b).1)
      → Through c s (after_block N q chunk offset buf t next).1
  unfolding after_block
  after_block-Keeps (failed n) chunk offset buf s t next h k = h
  after_block-Keeps (bytes b) chunk offset buf s t next h k =
      let P = λ (r : (ℤ × List ℕ) × N.State). Through c s r.1 in
      if_keeps P (length b == 0) (λ _. h)
        (λ _. if_keeps P (length b == chunk) (λ _. follow s t (next b).1 h (k b)) (λ _. h))

  rounds-Keeps :
      (fuel remaining offset : ℕ) (buf : List ℕ) → Keeps (read_rounds N fuel c remaining offset buf)
  unfolding read_rounds
  rounds-Keeps zero remaining offset buf s = still s
  rounds-Keeps (suc fuel) remaining offset buf s =
      let chunk = chunk_of remaining in
      let r = N.read_i2c_block_data c 0x74 (chunk % 256) s in
      if_keeps (λ (t : (ℤ × List ℕ) × N.State). Through c s t.1) (ltb 0 remaining)
        (λ _. after_block-Keeps r.0 chunk offset buf s r.1 _ (once s r.1 refl) (λ b.
          rounds-Keeps fuel (remaining - length b) (offset + length b) (splice offset b buf) r.1))
        (λ _. still s)

  bytes-Keeps :
      (dev : Mpu)
      → dev.client ≡ some c
      → (buf : List ℕ) (req : ℕ) → Keeps (mpu6050_read_fifo_bytes N dev buf req)
  unfolding mpu6050_read_fifo_bytes read_bytes
  bytes-Keeps dev e buf req s =
      let P = λ (t : (ℤ × List ℕ) × N.State). Through c s t.1 in
      if_keeps P (not dev.initialized) (λ _. still s)
        (λ _. rw e (if_keeps P (req == 0) (λ _. still s) (λ _. rounds-Keeps (suc req) req 0 buf s)))

  fetch-Keeps :
      (tmp : Option (List ℕ)) (dev : Mpu)
      → dev.client ≡ some c
      → (samples : List Raw) (frames : ℕ) → Keeps (fetch_frames N tmp dev samples frames)
  unfolding fetch_frames
  fetch-Keeps none dev e samples frames s = still s
  fetch-Keeps (some tmp) dev e samples frames s =
      let P = λ (t : (ℤ × List Raw) × N.State). Through c s t.1 in
      let r = mpu6050_read_fifo_bytes N dev tmp (frames * frame) s in
      let h = bytes-Keeps dev e tmp (frames * frame) s in
      if_keeps P (is_neg r.0.0) (λ _. h)
        (λ _. if_keeps P (ltb (pos_part r.0.0) frame) (λ _. h) (λ _. h))

  pub samples-Keeps :
      (kmalloc : ℕ → Option (List ℕ)) (dev : Mpu)
      → dev.client ≡ some c
      → (samples : List Raw) (max_samples : ℕ)
      → Keeps (mpu6050_read_fifo_samples N kmalloc dev samples max_samples)
  unfolding mpu6050_read_fifo_samples
  samples-Keeps kmalloc dev e samples max_samples s =
      let P = λ (t : (ℤ × List Raw) × N.State). Through c s t.1 in
      let k = mpu6050_kdd_get_fifo_count N dev s in
      let avail = k.0.1 / frame in
      let frames = if ltb max_samples avail then max_samples else avail in
      let h = count-Keeps dev e s in
      if_keeps P (not dev.initialized) (λ _. still s)
        (λ _.
          if_keeps P (max_samples == 0) (λ _. still s)
            (λ _.
              if_keeps P (is_neg k.0.0) (λ _. h)
                (λ _.
                  if_keeps P (ltb k.0.1 frame) (λ _. h)
                    (λ _.
                      let f = fetch_frames N (kmalloc (frames * frame)) dev samples frames k.1 in
                      follow s k.1 f.1 h
                        (fetch-Keeps (kmalloc (frames * frame)) dev e samples frames k.1)))))
