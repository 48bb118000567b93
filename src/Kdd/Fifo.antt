-- ===== src/Kdd/Fifo.antt =====
-- The FIFO of the sensor over the I2C core: get_fifo_count, read_fifo_bytes and read_fifo_samples
-- of 08_BeagleBone_pdev/mpu6050_kdd_primitives.c. A block can be shorter than what was asked for.
use linux_device_drivers_hw.Base.{
  ℕ, zero, suc, ◌+◌, ◌-◌, ◌*◌, ◌/◌, ◌%◌, ◌^◌, not, List, ◌++◌, Option, none, some, ℤ, pos, negsuc,
  is_neg, if◌then◌else◌, pos_part, ltb, ◌==◌, take, drop, length,
}
use linux_device_drivers_hw.Mpu6050.Regs.{reg_fifo_counth, reg_fifo_countl, reg_fifo_r_w}
use linux_device_drivers_hw.Base.Errno.{einval, enomem}
use linux_device_drivers_hw.Mpu6050.Convert.{Raw}
use linux_device_drivers_hw.Mpu6050.Fifo.{frame, chunk_of, convert}
use linux_device_drivers_hw.Kdd.{I2cCore, Reply, failed, bytes, Mpu}
use linux_device_drivers_hw.Mpu6050.Device.{not_initialized}

-- The bytes of a block, copied to an array from an offset on.
abbrev pub splice : ℕ → List ℕ → List ℕ → List ℕ
splice offset b buf = take offset buf ++ (b ++ drop (offset + length b) buf)

module _ (B : I2cCore) where
  -- mpu6050_kdd_get_fifo_count behind its test of `initialized`
  unfoldable pub read_fifo_count : Option ℕ → B.State → (ℤ × ℕ) × B.State
  read_fifo_count none s = ((einval, 0), s)
  read_fifo_count (some client) s =
      let hi = B.read_byte_data client reg_fifo_counth s in
      let lo = B.read_byte_data client reg_fifo_countl hi.1 in
      if is_neg hi.0
      then ((hi.0, 0), hi.1)
      else if is_neg lo.0
      then ((lo.0, 0), lo.1)
      else ((pos 0, pos_part hi.0 % 256 * 2 ^ 8 + pos_part lo.0 % 256), lo.1)

  -- mpu6050_kdd_get_fifo_count: the result and, on success, the count.
  unfoldable pub mpu6050_kdd_get_fifo_count : Mpu → B.State → (ℤ × ℕ) × B.State
  unfolding read_fifo_count
  mpu6050_kdd_get_fifo_count dev s =
      let r = read_fifo_count dev.client s in
      if not dev.initialized then ((not_initialized, 0), s) else r

  -- What a round of the loop does with the block that it has got.
  unfoldable pub after_block :
      Reply → ℕ → ℕ → List ℕ → B.State → (List ℕ → (ℤ × List ℕ) × B.State) → (ℤ × List ℕ) × B.State
  after_block (failed n) chunk offset buf s next = ((negsuc n, buf), s)
  after_block (bytes b) chunk offset buf s next =
      if length b == 0
      then ((pos offset, buf), s)
      else if length b == chunk
      then next b
      else ((pos (offset + length b), splice offset b buf), s)

  -- The loop of mpu6050_read_fifo_bytes, on fuel: it ends by an error, by a block that is empty or
  -- shorter than its chunk, or with nothing remaining.
  unfoldable pub read_rounds : ℕ → ℕ → ℕ → ℕ → List ℕ → B.State → (ℤ × List ℕ) × B.State
  read_rounds zero client remaining offset buf s = ((pos offset, buf), s)
  read_rounds (suc fuel) client remaining offset buf s =
      let chunk = chunk_of remaining in
      let r = B.read_i2c_block_data client reg_fifo_r_w (chunk % 256) s in
      let round = after_block r.0 chunk offset buf r.1 (λ (b : List ℕ).
        read_rounds fuel client (remaining - length b) (offset + length b) (splice offset b buf)
          r.1) in
      if ltb 0 remaining then round else ((pos offset, buf), s)

  unfoldable pub read_bytes : Option ℕ → List ℕ → ℕ → B.State → (ℤ × List ℕ) × B.State
  read_bytes none buf req s = ((einval, buf), s)
  read_bytes (some client) buf req s =
      let r = read_rounds (suc req) client req 0 buf s in if req == 0 then ((einval, buf), s) else r

  -- mpu6050_read_fifo_bytes: the result, and the array afterwards.
  unfoldable pub mpu6050_read_fifo_bytes : Mpu → List ℕ → ℕ → B.State → (ℤ × List ℕ) × B.State
  unfolding read_bytes
  mpu6050_read_fifo_bytes dev buf req s =
      let r = read_bytes dev.client buf req s in
      if not dev.initialized then ((not_initialized, buf), s) else r

  -- mpu6050_read_fifo_samples from the return of kmalloc on; the conversion of the frames is the
  -- one of 09_BeagleBone_lowlevel.
  unfoldable pub fetch_frames :
      Option (List ℕ) → Mpu → List Raw → ℕ → B.State → (ℤ × List Raw) × B.State
  fetch_frames none dev samples frames s = ((enomem, samples), s)
  fetch_frames (some tmp) dev samples frames s =
      let want_bytes = frames * frame in
      let r = mpu6050_read_fifo_bytes dev tmp want_bytes s in
      let got = pos_part r.0.0 in
      let n = if ltb got want_bytes then got / frame else frames in
      if is_neg r.0.0
      then ((r.0.0, samples), r.1)
      else if ltb got frame
      then ((pos 0, samples), r.1)
      else ((pos n, convert n 0 r.0.1 samples), r.1)

  -- mpu6050_read_fifo_samples: the result, and the caller's array afterwards.
  unfoldable pub mpu6050_read_fifo_samples :
      (ℕ → Option (List ℕ)) → Mpu → List Raw → ℕ → B.State → (ℤ × List Raw) × B.State
  mpu6050_read_fifo_samples kmalloc dev samples max_samples s =
      let c = mpu6050_kdd_get_fifo_count dev s in
      let avail = c.0.1 / frame in
      let frames = if ltb max_samples avail then max_samples else avail in
      let r = fetch_frames (kmalloc (frames * frame)) dev samples frames c.1 in
      if not dev.initialized
      then ((not_initialized, samples), s)
      else if max_samples == 0
      then ((einval, samples), s)
      else if is_neg c.0.0
      then ((c.0.0, samples), c.1)
      else if ltb c.0.1 frame
      then ((pos 0, samples), c.1)
      else r
