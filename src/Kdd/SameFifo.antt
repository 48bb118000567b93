-- ===== src/Kdd/SameFifo.antt =====
-- Reading the FIFO over the I2C core does what it does over the controller of
-- 09_BeagleBone_lowlevel, while no block is short.
use linux_device_drivers_hw.Base.{
  ℕ, zero, suc, ◌+◌, ◌-◌, ◌*◌, ◌/◌, ◌%◌, ◌<◌, ◌≤◌, true, false, ◌≡◌, inl, inr, refl, sym, ap, ap₂,
  ◌∙◌, List, ◌++◌, Option, none, some, ℤ, negsuc, is_neg, arith, if◌then◌else◌, ltb, ◌==◌, length,
  take, drop, take_whole, Bool-cases, drop-add, take-append-drop, length-take,
}
use linux_device_drivers_hw.Mpu6050.Convert.{Raw}
use linux_device_drivers_hw.Mpu6050.Device.{Dev}
use linux_device_drivers_hw.Mpu6050.Fifo.{
  frame, chunk_of, read_chunk, read_chunks, read_fifo_bytes, get_fifo_count, fetch,
  read_fifo_samples,
}
use linux_device_drivers_hw.Mpu6050.Fifo.Slices.{take_front}
use linux_device_drivers_hw.Mpu6050.Fifo.Chunks.{chunk_lem}
use linux_device_drivers_hw.Kdd.{I2cCore, Reply, failed, bytes}
use linux_device_drivers_hw.Kdd.Fifo.{
  splice, read_fifo_count, mpu6050_kdd_get_fifo_count, after_block, read_rounds, read_bytes,
  mpu6050_read_fifo_bytes, fetch_frames, mpu6050_read_fifo_samples,
}
use linux_device_drivers_hw.Kdd.SameProgram.{into_array, client_bus, with_client}

-- A core whose blocks are never short, while at most 32 bytes are asked for: more than that it never gives.
abbrev pub IsComplete : I2cCore → ℕ → Type 0
IsComplete B client =
    (reg len : ℕ) (s : B.State) (b : List ℕ)
    → len ≤ 32
    → (B.read_i2c_block_data client reg len s).0 ≡ bytes b
    → length b ≡ len

splice_same :
    (offset chunk : ℕ) (buf : List ℕ)
    → take offset buf ++ (take chunk (take chunk (drop offset buf)) ++ drop (offset + chunk) buf)
      ≡ buf
splice_same offset chunk buf =
    let t = take chunk (drop offset buf) in
    let e : take chunk t ≡ t =
      take_whole chunk t (omega (arith, length-take chunk (drop offset buf))) in
    ap₂ (λ x y. take offset buf ++ (x ++ y)) e (drop-add offset chunk buf)
    ∙ ap (λ x. take offset buf ++ x) (take-append-drop chunk (drop offset buf))
    ∙ take-append-drop offset buf

module _ (B : I2cCore) (client : ℕ) where
  -- A round with its block.
  after_block_same :
      (q : Reply) (chunk offset : ℕ) (buf : List ℕ) (s : B.State)
      (next rest : List ℕ → (ℤ × List ℕ) × B.State)
      → 0 < chunk
      → ((b : List ℕ) → q ≡ bytes b → (length b ≡ chunk) × (next b ≡ rest (splice offset b buf)))
      → let w = into_array chunk (take chunk (drop offset buf)) q in
        let buf' = take offset buf ++ (take chunk w.1 ++ drop (offset + chunk) buf) in
        after_block B q chunk offset buf s next
        ≡ (if is_neg w.0 then ((w.0, buf'), s) else rest buf')
  unfolding after_block
  after_block_same (failed n) chunk offset buf s next rest p h =
      ap (λ b. ((negsuc n, b), s)) (sym (splice_same offset chunk buf))
  after_block_same (bytes b) chunk offset buf s next rest p h =
      let (len, same) = h b refl in
      let tail = drop chunk (take chunk (drop offset buf)) in
      let some_bytes : (length b == 0) ≡ false = ground arith in
      let whole : (length b == chunk) ≡ true = ground arith in
      rw (some_bytes, whole)
        (same
          ∙ ap₂ (λ x y. rest (take offset buf ++ (x ++ drop (offset + y) buf)))
              (sym (take_front chunk b tail len)) len)

  same_rounds :
      IsComplete B client
      → (d : Dev) (fuel remaining offset : ℕ) (buf : List ℕ) (s : B.State)
      → read_rounds B fuel client remaining offset buf s
        ≡ read_chunks (client_bus B client) fuel d remaining offset buf s
  unfolding read_rounds read_chunks read_chunk
  same_rounds h d zero remaining offset buf s = refl
  same_rounds h d (suc fuel) remaining offset buf s =
      let chunk = chunk_of remaining in
      let small : chunk % 256 ≡ chunk = omega (arith, chunk_lem remaining) in
      let r = B.read_i2c_block_data client 0x74 chunk s in
      elim (Bool-cases (ltb 0 remaining)) [
        | inr z ↦ rw z refl
        | inl z ↦ rw z (
            rw small (
              after_block_same r.0 chunk offset buf r.1 _
                (λ b.
                  read_chunks (client_bus B client) fuel d (remaining - chunk) (offset + chunk) b
                    r.1)
                ((chunk_lem remaining).2 (ground arith))
                (λ b e.
                  let len = h 0x74 chunk s b (chunk_lem remaining).1 e in
                  (
                    len,
                    same_rounds h d fuel (remaining - length b) (offset + length b)
                          (splice offset b buf) r.1
                        ∙ ap
                            (λ k.
                              read_chunks (client_bus B client) fuel d (remaining - k) (offset + k)
                                (splice offset b buf) r.1)
                            len,
                  ))))
      ]

  same_fifo_bytes :
      IsComplete B client
      → (d : Dev) (buf : List ℕ) (req : ℕ) (s : B.State)
      → mpu6050_read_fifo_bytes B (with_client client d) buf req s
        ≡ read_fifo_bytes (client_bus B client) d buf req s
  unfolding mpu6050_read_fifo_bytes read_bytes read_fifo_bytes
  same_fifo_bytes h d buf req s = rw (same_rounds h d (suc req) req 0 buf s) refl

  same_fetch :
      IsComplete B client
      → (tmp : Option (List ℕ)) (d : Dev) (samples : List Raw) (frames : ℕ) (s : B.State)
      → fetch_frames B tmp (with_client client d) samples frames s
        ≡ fetch (client_bus B client) tmp d samples frames s
  unfolding fetch_frames fetch
  same_fetch h none d samples frames s = refl
  same_fetch h (some tmp) d samples frames s = rw (same_fifo_bytes h d tmp (frames * frame) s) refl

  same_count :
      (d : Dev) (s : B.State)
      → mpu6050_kdd_get_fifo_count B (with_client client d) s
        ≡ get_fifo_count (client_bus B client) d s
  unfolding mpu6050_kdd_get_fifo_count read_fifo_count get_fifo_count
  same_count d s = refl

  -- mpu6050_read_fifo_samples over a client whose blocks of up to 32 bytes are never short returns the result of the
  -- one of 09_BeagleBone_lowlevel over that client as its bus, with the same samples in the array
  -- of the caller, and leaves the I2C core the same.
  pub same_samples :
      IsComplete B client
      → (kmalloc : ℕ → Option (List ℕ)) (d : Dev) (samples : List Raw) (max_samples : ℕ)
        (s : B.State)
      → mpu6050_read_fifo_samples B kmalloc (with_client client d) samples max_samples s
        ≡ read_fifo_samples (client_bus B client) kmalloc d samples max_samples s
  unfolding mpu6050_read_fifo_samples read_fifo_samples
  same_samples h kmalloc d samples max_samples s =
      let c = get_fifo_count (client_bus B client) d s in
      let avail = c.0.1 / frame in
      let frames = if ltb max_samples avail then max_samples else avail in
      rw (same_count d s) (rw (same_fetch h (kmalloc (frames * frame)) d samples frames c.1) refl)
