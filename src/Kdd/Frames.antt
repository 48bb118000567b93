-- ===== src/Kdd/Frames.antt =====
-- The samples that are read of the FIFO when the I2C core can bring short blocks.
use linux_device_drivers_hw.Base.{
  ℕ, zero, suc, ◌+◌, ◌-◌, ◌*◌, ◌/◌, ◌≤◌, ◌<◌, true, false, ◌≡◌, ◌⊎◌, inl, inr, refl, sym, ap, ap₂,
  ◌∙◌, List, [], ◌∷◌, ◌++◌, some, ℤ, pos, is_neg, arith, if_keeps, ltb, ◌==◌, if◌then◌else◌, length,
  length-take, All, take, drop, take-add, append_assoc,
}
use linux_device_drivers_hw.Mpu6050.Convert.{Raw, IsRaw}
use linux_device_drivers_hw.Mpu6050.Device.{Dev}
use linux_device_drivers_hw.Mpu6050.Fifo.{frame, convert}
use linux_device_drivers_hw.Mpu6050.Fifo.Samples.{encode, encode_all, convert_decodes}
use linux_device_drivers_hw.Mpu6050.Fifo.Slices.{All-take, take_beyond}
use linux_device_drivers_hw.Kdd.{I2cCore}
use linux_device_drivers_hw.Kdd.SameProgram.{with_client}
use linux_device_drivers_hw.Kdd.Fifo.{read_bytes, mpu6050_read_fifo_bytes, fetch_frames}
use linux_device_drivers_hw.Kdd.Short.{IsStreaming, Taken, read_rounds-Taken}

-- The first frames of an encoded FIFO.
take_frames :
    (k : ℕ) (rs : List Raw) (more : List ℕ)
    → k ≤ length rs
    → take (k * frame) (encode_all rs ++ more) ≡ encode_all (take k rs)
take_frames zero rs more h = refl
take_frames (suc k) [] more h = absurd (omega arith)
take_frames (suc k) (r ∷ rs) more h =
    let e : suc k * frame ≡ frame + k * frame = omega arith in
    let rest = encode_all rs ++ more in
    ap (λ j. take j (encode r ++ rest)) e
    ∙ take_beyond (encode r) rest frame (k * frame) refl
    ∙ ap (λ t. encode r ++ t) (take_frames k rs more (omega arith))

-- The conversion of the whole frames among `n` bytes of an encoded FIFO.
convert_part :
    (n : ℕ) (rs samples : List Raw) (more behind : List ℕ)
    → All IsRaw rs
    → n / frame ≤ length rs
    → length rs ≤ length samples
    → convert (n / frame) 0 (take n (encode_all rs ++ more) ++ behind) samples
      ≡ take (n / frame) rs ++ drop (n / frame) samples
convert_part n rs samples more behind raw h l =
    let k = n / frame in
    let j = n - k * frame in
    let fifo = encode_all rs ++ more in
    let e : n ≡ k * frame + j = omega arith in
    let some_frames = take k rs in
    let m : length some_frames ≡ k = omega (arith, length-take k rs) in
    let z : 0 + k ≡ k = omega arith in
    let rest = take j (drop (k * frame) fifo) ++ behind in
    let bytes : take n fifo ++ behind ≡ encode_all some_frames ++ rest =
      ap (λ i. take i fifo ++ behind) e
      ∙ ap (λ t. t ++ behind)
          (take-add (k * frame) j fifo
            ∙ ap (λ t. t ++ take j (drop (k * frame) fifo)) (take_frames k rs more h))
      ∙ append_assoc (encode_all some_frames) (take j (drop (k * frame) fifo)) behind in
    ap₂ (λ i b. convert i 0 b samples) (sym m) bytes
    ∙ convert_decodes some_frames 0 [] rest samples (All-take IsRaw k rs raw) refl
        (omega (arith, m))
    ∙ ap (λ i. some_frames ++ drop i samples) (omega (arith, m))

-- The result of a fetch, by the bytes that have come.
fetched :
    {S : Type 0} (n frames : ℕ) (samples out : List Raw) (convert_to : ℕ → List Raw) (s : S)
    → n ≤ frames * frame
    → convert_to (n / frame) ≡ out
    → (n < frame → out ≡ samples)
    → let m = if ltb n (frames * frame) then n / frame else frames in
      ◌≡◌ {A = (ℤ × List Raw) × S}
        (if ltb n frame then ((pos 0, samples), s) else ((pos m, convert_to m), s))
        ((pos (n / frame), out), s)
fetched {S} n frames samples out convert_to s h c small =
    let m = if ltb n (frames * frame) then n / frame else frames in
    let e : m ≡ n / frame = ground arith in
    if_keeps (λ (t : (ℤ × List Raw) × S). t ≡ ((pos (n / frame), out), s)) (ltb n frame)
      (λ t.
        let z : 0 ≡ n / frame = ground arith in
        ap₂ (λ k u. ((pos k, u), s)) z (sym (small (ground arith))))
      (λ f. ap₂ (λ k u. ((pos k, u), s)) e (ap convert_to e ∙ c))

module _ (B : I2cCore) (client : ℕ) (st : IsStreaming B client) (d : Dev)
    (i : d.initialized ≡ true) where
  fifo_bytes-Taken :
      (buf : List ℕ) (req : ℕ) (s : B.State)
      → 0 < req
      → req ≤ length buf
      → Taken st.fifo 0 req buf
          (st.fifo s)
          (mpu6050_read_fifo_bytes B (with_client client d) buf req s)
  unfolding mpu6050_read_fifo_bytes read_bytes
  fifo_bytes-Taken buf req s p h =
      let n : (req == 0) ≡ false = ground arith in
      rw (i, n) (read_rounds-Taken B client st (suc req) req 0 buf s (omega arith))

  -- When the FIFO of an initialised device starts with as many encoded samples, whose readings are
  -- shorts, as frames are asked for, at least one, the fetch into a block of their size returns a
  -- negative error and leaves the caller's array alone, or takes some first n bytes off the FIFO,
  -- at most the frames asked for; then it returns the number of whole frames among them and puts
  -- their samples at the front of the caller's array, which has room for all, in their order, with
  -- the other elements alone. So a short block in the middle of a frame loses the begun frame, and
  -- leaves the rest of it at the front of the FIFO.
  pub fetch_part :
      (rs samples : List Raw) (tmp more : List ℕ) (s : B.State)
      → All IsRaw rs
      → 0 < length rs
      → length rs ≤ length samples
      → length tmp ≡ length rs * frame
      → st.fifo s ≡ encode_all rs ++ more
      → let r = fetch_frames B (some tmp) (with_client client d) samples (length rs) s in
        ((is_neg r.0.0 ≡ true) × (r.0.1 ≡ samples))
        ⊎ ((n : ℕ) × (n ≤ length rs * frame)
            × (r.0 ≡ (pos (n / frame), take (n / frame) rs ++ drop (n / frame) samples))
            × (st.fifo r.1 ≡ drop n (encode_all rs ++ more)))
  unfolding fetch_frames
  fetch_part rs samples tmp more s raw p l t f =
      let want = length rs * frame in
      let r = mpu6050_read_fifo_bytes B (with_client client d) tmp want s in
      elim (fifo_bytes-Taken tmp want s (omega arith) (omega arith)) [
        | inl neg ↦ rw neg (inl (neg, refl))
        | inr took ↦
            let n = took.got in
            let k = n / frame in
            let want = length rs * frame in
            let out = take k rs ++ drop k samples in
            let code : r.0.0 ≡ pos n = took.code ∙ ap pos (omega arith) in
            let array : r.0.1 ≡ take n (encode_all rs ++ more) ++ drop (0 + n) tmp =
              took.array ∙ ap (λ u. take n u ++ drop (0 + n) tmp) f in
            let samples' : convert k 0 r.0.1 samples ≡ take k rs ++ drop k samples =
              ap (λ b. convert k 0 b samples) array
              ∙ convert_part n rs samples more (drop (0 + n) tmp) raw (omega (arith, took.asked))
                  l in
            let res =
              fetched n (length rs) samples out (λ m. convert m 0 r.0.1 samples) r.1 took.asked
                samples'
                (λ q. let z : k ≡ 0 = ground arith in ap (λ j. take j rs ++ drop j samples) z) in
            inr (
              n,
              took.asked,
              rw code (ap (λ u. u.0) res),
              rw code (ap (λ u. st.fifo u.1) res ∙ took.off ∙ ap (λ u. drop n u) f),
            )
      ]
