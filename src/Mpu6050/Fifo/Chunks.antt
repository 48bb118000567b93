-- ===== src/Mpu6050/Fifo/Chunks.antt =====
-- Reading the FIFO in chunks: the array stays as long as it is, the read ends with an error or with
-- every byte asked for, and on a bus that streams the FIFO the chunks do not show.
use mathlib.Core.Path.{subst}
use linux_device_drivers_hw.Base.{
  ℕ, zero, suc, ◌+◌, ◌-◌, ◌%◌, ◌≤◌, ◌<◌, true, false, ◌≡◌, ◌⊎◌, inl, inr, refl, sym, ap, ap₂, ◌∙◌,
  append-nil, List, ◌++◌, ℤ, pos, arith, is_neg, not, ◌==◌, if_keeps, ltb, length, All, All-append,
  length-append, length-take, length-drop, take, drop, drop-add, take_whole,
}
use linux_device_drivers_hw.Mpu6050.Bus.{RegBus, IsBlock}
use linux_device_drivers_hw.Mpu6050.Device.{Dev}
use linux_device_drivers_hw.Mpu6050.Fifo.{chunk_of, read_chunk, read_chunks, read_fifo_bytes}
use linux_device_drivers_hw.Mpu6050.Fifo.Slices.{All-take, All-drop, length-splice, chunk_joins}

pub chunk_lem : (n : ℕ) → (chunk_of n ≤ n) × (chunk_of n ≤ 32) × (0 < n → 0 < chunk_of n)
unfolding chunk_of
chunk_lem n = ground arith

-- An array of exactly `n` bytes.
abbrev pub IsArray : ℕ → List ℕ → Type 0
IsArray n b = (length b ≡ n) × All (λ v. v < 256) b

splice-IsArray :
    (n chunk offset : ℕ) (buf c : List ℕ)
    → offset + chunk ≤ n
    → IsArray n buf
    → IsBlock chunk c
    → IsArray n (take offset buf ++ (take chunk c ++ drop (offset + chunk) buf))
splice-IsArray n chunk offset buf c h hb hc =
    let rest = take chunk c ++ drop (offset + chunk) buf in
    (
      omega (
        arith,
        length-append (take offset buf) rest,
        length-append (take chunk c) (drop (offset + chunk) buf),
        length-take offset buf,
        length-take chunk c,
        length-drop (offset + chunk) buf,
        hb.0,
        hc.0,
      ),
      All-append (λ v. v < 256) (take offset buf) rest (All-take (λ v. v < 256) offset buf hb.1)
          (All-append (λ v. v < 256) (take chunk c) (drop (offset + chunk) buf)
            (All-take (λ v. v < 256) chunk c hc.1)
            (All-drop (λ v. v < 256) (offset + chunk) buf hb.1)),
    )

slice-IsBlock :
    (n chunk offset : ℕ) (buf : List ℕ)
    → offset + chunk ≤ n
    → IsArray n buf
    → IsBlock chunk (take chunk (drop offset buf))
slice-IsBlock n chunk offset buf h hb = (
  omega (arith, length-take chunk (drop offset buf), length-drop offset buf, hb.0),
  All-take (λ v. v < 256) chunk (drop offset buf) (All-drop (λ v. v < 256) offset buf hb.1),
)

-- What a read of `req` bytes ends with: an error, or every byte.
abbrev pub EndsWith : ℕ → ℕ → ℤ × List ℕ → Type 0
EndsWith req n r = ((is_neg r.0 ≡ true) ⊎ (r.0 ≡ pos req)) × IsArray n r.1

module _ (B : RegBus) (dev : Dev) where
  read_chunk-IsArray :
      (n chunk offset : ℕ) (buf : List ℕ) (s : B.State)
      → offset + chunk ≤ n
      → chunk ≤ 32
      → IsArray n buf
      → IsArray n (read_chunk B dev chunk offset buf s).0.1
  unfolding read_chunk
  read_chunk-IsArray n chunk offset buf s h small hb =
      let c = take chunk (drop offset buf) in
      let k : chunk % 256 ≡ chunk = omega arith in
      let v = slice-IsBlock n chunk offset buf h hb in
      splice-IsArray n chunk offset buf _ h hb
        (rw k (B.block_bytes dev.i2c_addr 0x74 chunk c s (omega arith) (omega arith) v))

  read_chunks_end :
      (n fuel remaining offset : ℕ) (buf : List ℕ) (s : B.State)
      → offset + remaining ≡ n
      → remaining < fuel
      → IsArray n buf
      → EndsWith n n (read_chunks B fuel dev remaining offset buf s).0
  unfolding read_chunks
  read_chunks_end n zero remaining offset buf s e h hb = absurd (omega arith)
  read_chunks_end n (suc fuel) remaining offset buf s e h hb =
      let chunk = chunk_of remaining in
      let c = chunk_lem remaining in
      let r = read_chunk B dev chunk offset buf s in
      let v = read_chunk-IsArray n chunk offset buf s (omega (arith, c.0)) c.1 hb in
      if_keeps (λ (t : (ℤ × List ℕ) × B.State). EndsWith n n t.0) (ltb 0 remaining)
        (λ more.
          if_keeps (λ (t : (ℤ × List ℕ) × B.State). EndsWith n n t.0) (is_neg r.0.0)
            (λ neg. (inl neg, v))
            (λ _.
              read_chunks_end n fuel (remaining - chunk) (offset + chunk) r.0.1 r.1
                (omega (arith, c.0)) (let p : 0 < remaining = ground arith in omega (arith, c.2 p))
                v))
        (λ done. (inr (ap pos (ground arith)), hb))

  -- mpu6050_read_fifo_bytes of an array of `req` bytes returns, whatever the bus does, a negative
  -- error or `req`, and leaves an array of `req` bytes: the loop ends within the fuel that the
  -- model gives it, and no chunk reaches beyond the array.
  pub read_fifo_bytes_end :
      (buf : List ℕ) (req : ℕ) (s : B.State)
      → IsArray req buf
      → EndsWith req req (read_fifo_bytes B dev buf req s).0
  unfolding read_fifo_bytes
  read_fifo_bytes_end buf req s hb =
      if_keeps (λ (t : (ℤ × List ℕ) × B.State). EndsWith req req t.0) (not dev.initialized)
        (λ _. (inl refl, hb))
        (λ _.
          if_keeps (λ (t : (ℤ × List ℕ) × B.State). EndsWith req req t.0) (req == 0)
            (λ _. (inl refl, hb))
            (λ _. read_chunks_end req (suc req) req 0 buf s (omega arith) (omega arith) hb))

-- A bus behind which the sensor's FIFO is a stream. `Streams s n f` says that the FIFO holds f, and
-- that the controller is there for reads of its first n bytes in the blocks that the driver asks for:
-- each read of such a block gives its bytes and takes them off.
pub record IsStream (B : RegBus) (addr : ℕ) : Type 1 where
  pub Streams : B.State → ℕ → List ℕ → Type 0
  pub reads :
      (n : ℕ) (f b : List ℕ) (s : B.State)
      → Streams s n f
      → 0 < n
      → n ≤ length f
      → length b ≡ chunk_of n
      → let r = B.block addr 0x74 (chunk_of n) b s in
        (r.0 ≡ (pos 0, take (chunk_of n) f)) × Streams r.1 (n - chunk_of n) (drop (chunk_of n) f)

module _ (B : RegBus) (dev : Dev) (st : IsStream B dev.i2c_addr) where
  -- A round of the loop takes a block.
  chunk_reads :
      (remaining offset : ℕ) (buf f : List ℕ) (s : B.State)
      → st.Streams s remaining f
      → 0 < remaining
      → remaining ≤ length f
      → offset + remaining ≡ length buf
      → let chunk = chunk_of remaining in
        let r = read_chunk B dev chunk offset buf s in
        (r.0 ≡ (pos 0, take offset buf ++ (take chunk f ++ drop (offset + chunk) buf)))
        × st.Streams r.1 (remaining - chunk) (drop chunk f)
  unfolding read_chunk
  chunk_reads remaining offset buf f s h p hf l =
      let chunk = chunk_of remaining in
      let m = chunk_lem remaining in
      let k : chunk % 256 ≡ chunk = omega (arith, m.1) in
      let c = take chunk (drop offset buf) in
      let n : length c ≡ chunk =
        omega (arith, m.0, length-take chunk (drop offset buf), length-drop offset buf) in
      let r = st.reads remaining f c s h p hf n in
      rw k
        (rw (r.0, take_whole chunk (take chunk f) (omega (arith, length-take chunk f))) refl, r.1)

  read_chunks_stream :
      (fuel remaining offset : ℕ) (buf f : List ℕ) (s : B.State)
      → st.Streams s remaining f
      → remaining < fuel
      → offset + remaining ≡ length buf
      → remaining ≤ length f
      → let r = read_chunks B fuel dev remaining offset buf s in
        (r.0 ≡ (pos (length buf), take offset buf ++ take remaining f))
        × st.Streams r.1 0 (drop remaining f)
  unfolding read_chunks
  read_chunks_stream zero remaining offset buf f s here h hl hf = absurd (omega arith)
  read_chunks_stream (suc fuel) remaining offset buf f s here h hl hf =
      let chunk = chunk_of remaining in
      let c = chunk_lem remaining in
      let r = read_chunk B dev chunk offset buf s in
      if_keeps
        (λ (t : (ℤ × List ℕ) × B.State).
          (t.0 ≡ (pos (length buf), take offset buf ++ take remaining f))
          × st.Streams t.1 0 (drop remaining f))
        (ltb 0 remaining)
        (λ more.
          let p : 0 < remaining = ground arith in
          let (g, on) = chunk_reads remaining offset buf f s here p hf hl in
          let b : r.0.1 ≡ take offset buf ++ (take chunk f ++ drop (offset + chunk) buf) =
            ap (λ q. q.1) g in
          let code : r.0.0 ≡ pos 0 = ap (λ q. q.0) g in
          let len : length r.0.1 ≡ length buf =
            ap length b
            ∙ length-splice buf f offset chunk (omega (arith, c.0)) (omega (arith, c.0)) in
          let rec =
            read_chunks_stream fuel (remaining - chunk) (offset + chunk) r.0.1 (drop chunk f) r.1 on
              (omega (arith, c.2 p)) (omega (arith, len, c.0))
              (omega (arith, length-drop chunk f, c.0)) in
          let e : chunk + (remaining - chunk) ≡ remaining = omega (arith, c.0) in
          rw (ap is_neg code) (
            rec.0
                ∙ ap₂ (λ n t. (pos n, t)) len
                    (ap (λ x. take (offset + chunk) x ++ take (remaining - chunk) (drop chunk f)) b
                      ∙ chunk_joins buf f (drop (offset + chunk) buf) offset chunk remaining
                          (omega arith) (omega (arith, c.0)) c.0),
            subst (st.Streams _ 0)
                (sym (drop-add chunk (remaining - chunk) f) ∙ ap (λ j. drop j f) e) rec.1,
          ))
        (λ done.
          let z : remaining ≡ 0 = ground arith in
          let e : offset ≡ length buf = omega arith in
          (
            ap₂ (λ n t. (pos n, t)) e
                (sym (
                  ap (λ j. take offset buf ++ take j f) z
                  ∙ append-nil (take offset buf)
                  ∙ take_whole offset buf (omega arith))),
            subst (λ (j : ℕ). st.Streams s 0 (drop j f)) (sym z)
                (subst (λ (j : ℕ). st.Streams s j f) z here),
          ))

  -- On a bus that streams the FIFO, mpu6050_read_fifo_bytes of an initialised device into an
  -- array that is not empty and that the FIFO can fill returns the length of the array, with
  -- exactly the first bytes of the FIFO in the array in their order, and leaves the bytes behind
  -- them in the FIFO: the division into chunks of 32 bytes does not show.
  pub read_fifo_bytes_stream :
      (buf f : List ℕ) (s : B.State)
      → st.Streams s (length buf) f
      → dev.initialized ≡ true
      → 0 < length buf
      → length buf ≤ length f
      → let r = read_fifo_bytes B dev buf (length buf) s in
        (r.0 ≡ (pos (length buf), take (length buf) f)) × st.Streams r.1 0 (drop (length buf) f)
  unfolding read_fifo_bytes
  read_fifo_bytes_stream buf f s here i p h =
      let n : (length buf == 0) ≡ false = ground arith in
      simp (i, n)
        (read_chunks_stream (suc (length buf)) (length buf) 0 buf f s here (omega arith)
          (omega arith) h)
