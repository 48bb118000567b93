-- ===== src/Mpu6050/Fifo.antt =====
-- The FIFO of the sensor: get_fifo_count, read_fifo_bytes and read_fifo_samples of
-- mpu6050_kdd_primitives.c. The pointers are those of static objects and of the caller's arrays, so
-- the tests for NULL do not arise; kmalloc is a parameter.
pub mod Slices
pub mod Chunks
pub mod Samples
use linux_device_drivers_hw.Base.{
  ℕ, zero, suc, ◌+◌, ◌-◌, ◌*◌, ◌/◌, ◌%◌, ◌^◌, Bool, true, false, not, ◌≡◌, List, [], ◌∷◌, ◌++◌,
  Option, none, some, ℤ, pos, is_neg, if◌then◌else◌, pos_part, ltb, ◌==◌, take, drop, get_or, set,
  signed16,
}
use linux_device_drivers_hw.Mpu6050.Regs.{reg_fifo_counth, reg_fifo_countl, reg_fifo_r_w}
use linux_device_drivers_hw.Base.Errno.{einval, enomem}
use linux_device_drivers_hw.Mpu6050.Convert.{Raw}
use linux_device_drivers_hw.Mpu6050.Bus.{RegBus}
use linux_device_drivers_hw.Mpu6050.Device.{Dev, not_initialized}

-- `frame`: accelerometer, temperature and gyroscope
abbrev pub frame : ℕ
frame = 14

-- get_unaligned_be16, as a `short`
unfoldable pub be16 : List ℕ → ℕ → ℤ
be16 tmp off = signed16 (get_or tmp off 0 * 2 ^ 8 + get_or tmp (off + 1) 0)

-- The frame at an offset.
unfoldable pub sample_at : List ℕ → ℕ → Raw
sample_at tmp off = record {
  ax = be16 tmp (off + 0);
  ay = be16 tmp (off + 2);
  az = be16 tmp (off + 4);
  temp = be16 tmp (off + 6);
  gx = be16 tmp (off + 8);
  gy = be16 tmp (off + 10);
  gz = be16 tmp (off + 12);
}

-- The loop that converts the frames, with the number of frames left and the next index.
unfoldable pub convert : ℕ → ℕ → List ℕ → List Raw → List Raw
convert zero i tmp samples = samples
convert (suc left) i tmp samples =
    convert left (i + 1) tmp (set samples i (sample_at tmp (i * frame)))

-- `(remaining > 32) ? 32 : remaining`
unfoldable pub chunk_of : ℕ → ℕ
chunk_of remaining = if ltb 32 remaining then 32 else remaining

module _ (B : RegBus) where
  -- mpu6050_kdd_get_fifo_count: the result and, on success, the count. The two bytes share no bit,
  -- so that their `|` is a sum.
  unfoldable pub get_fifo_count : Dev → B.State → (ℤ × ℕ) × B.State
  get_fifo_count dev s =
      let hi = B.read dev.i2c_addr reg_fifo_counth s in
      let lo = B.read dev.i2c_addr reg_fifo_countl hi.1 in
      if not dev.initialized
      then ((not_initialized, 0), s)
      else if is_neg hi.0
      then ((hi.0, 0), hi.1)
      else if is_neg lo.0
      then ((lo.0, 0), lo.1)
      else ((pos 0, pos_part hi.0 % 256 * 2 ^ 8 + pos_part lo.0 % 256), lo.1)

  -- `i2c2_ll_read_block(.., (u8)chunk, &buf[offset])`: the callee has the `chunk` bytes from
  -- `offset` on.
  unfoldable pub read_chunk : Dev → ℕ → ℕ → List ℕ → B.State → (ℤ × List ℕ) × B.State
  read_chunk dev chunk offset buf s =
      let r = B.block dev.i2c_addr reg_fifo_r_w (chunk % 256) (take chunk (drop offset buf)) s in
      ((r.0.0, take offset buf ++ (take chunk r.0.1 ++ drop (offset + chunk) buf)), r.1)

  -- The loop of mpu6050_read_fifo_bytes, on fuel: every round but the last takes 32 bytes.
  unfoldable pub read_chunks : ℕ → Dev → ℕ → ℕ → List ℕ → B.State → (ℤ × List ℕ) × B.State
  read_chunks zero dev remaining offset buf s = ((pos offset, buf), s)
  read_chunks (suc fuel) dev remaining offset buf s =
      let chunk = chunk_of remaining in
      let r = read_chunk dev chunk offset buf s in
      let rest = read_chunks fuel dev (remaining - chunk) (offset + chunk) r.0.1 r.1 in
      if ltb 0 remaining then (if is_neg r.0.0 then r else rest) else ((pos offset, buf), s)

  -- mpu6050_read_fifo_bytes: the result, and the array afterwards.
  unfoldable pub read_fifo_bytes : Dev → List ℕ → ℕ → B.State → (ℤ × List ℕ) × B.State
  read_fifo_bytes dev buf req s =
      let r = read_chunks (suc req) dev req 0 buf s in
      if not dev.initialized
      then ((not_initialized, buf), s)
      else if req == 0
      then ((einval, buf), s)
      else r

  -- mpu6050_read_fifo_samples from the return of kmalloc on
  unfoldable pub fetch : Option (List ℕ) → Dev → List Raw → ℕ → B.State → (ℤ × List Raw) × B.State
  fetch none dev samples frames s = ((enomem, samples), s)
  fetch (some tmp) dev samples frames s =
      let want_bytes = frames * frame in
      let r = read_fifo_bytes dev tmp want_bytes s in
      let got = pos_part r.0.0 in
      let n = if ltb got want_bytes then got / frame else frames in
      if is_neg r.0.0
      then ((r.0.0, samples), r.1)
      else if ltb got frame
      then ((pos 0, samples), r.1)
      else ((pos n, convert n 0 r.0.1 samples), r.1)

  module _ (kmalloc : ℕ → Option (List ℕ)) where
    -- mpu6050_read_fifo_samples: the result, and the caller's array afterwards.
    unfoldable pub read_fifo_samples : Dev → List Raw → ℕ → B.State → (ℤ × List Raw) × B.State
    read_fifo_samples dev samples max_samples s =
        let c = get_fifo_count dev s in
        let avail = c.0.1 / frame in
        let frames = if ltb max_samples avail then max_samples else avail in
        let r = fetch (kmalloc (frames * frame)) dev samples frames c.1 in
        if not dev.initialized
        then ((not_initialized, samples), s)
        else if max_samples == 0
        then ((einval, samples), s)
        else if is_neg c.0.0
        then ((c.0.0, samples), c.1)
        else if ltb c.0.1 frame
        then ((pos 0, samples), c.1)
        else r
