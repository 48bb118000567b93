-- ===== src/Kdd/Short.antt =====
-- What is read of the FIFO when the I2C core can bring short blocks: a first part of it, and of the
-- samples.
use linux_device_drivers_hw.Base.{
  ℕ, zero, suc, ◌+◌, ◌-◌, ◌%◌, ◌≤◌, true, ◌≡◌, ◌⊎◌, inl, inr, refl, sym, ap, ap₂, ◌∙◌, List, [],
  ◌∷◌, ◌++◌, ℤ, pos, is_neg, arith, if_keeps, ltb, ◌==◌, length, length-append, length-take,
  length-drop, take, drop, take-add, drop-add, take-append-drop, append_assoc,
}
use linux_device_drivers_hw.Mpu6050.Fifo.{chunk_of}
use linux_device_drivers_hw.Mpu6050.Fifo.Slices.{take_beyond, take_front}
use linux_device_drivers_hw.Mpu6050.Fifo.Chunks.{chunk_lem}
use linux_device_drivers_hw.Kdd.{I2cCore, Reply, failed, bytes}
use linux_device_drivers_hw.Kdd.Fifo.{splice, after_block, read_rounds}

-- A client behind which the sensor's FIFO is a stream: a block of it takes as many bytes off as it
-- brings.
pub record IsStreaming (B : I2cCore) (client : ℕ) : Type 0 where
  pub fifo : B.State → List ℕ
  pub brings :
      (len : ℕ) (s : B.State) (b : List ℕ)
      → (B.read_i2c_block_data client 0x74 len s).0 ≡ bytes b
      → (b ≡ take (length b) (fifo s))
        × (fifo (B.read_i2c_block_data client 0x74 len s).1 ≡ drop (length b) (fifo s))

drop_beyond {ℓ} :
    {A : Type ℓ} (xs ys : List A) (n k : ℕ) → length xs ≡ n → drop (n + k) (xs ++ ys) ≡ drop k ys
drop_beyond [] ys zero k h = let e : 0 + k ≡ k = omega arith in ap (λ j. drop j ys) e
drop_beyond [] ys (suc n) k h = absurd (omega arith)
drop_beyond (x ∷ xs) ys zero k h = absurd (omega arith)
drop_beyond (x ∷ xs) ys (suc n) k h =
    let e : suc n + k ≡ suc (n + k) = omega arith in
    ap (λ j. drop j (x ∷ (xs ++ ys))) e ∙ drop_beyond xs ys n k (omega arith)

module _ (offset : ℕ) (b buf : List ℕ) (fits : offset + length b ≤ length buf) where
  front : length (take offset buf) ≡ offset
  front = omega (arith, length-take offset buf)

  take-splice : take (offset + length b) (splice offset b buf) ≡ take offset buf ++ b
  take-splice =
      take_beyond (take offset buf) (b ++ drop (offset + length b) buf) offset (length b) front
      ∙ ap (λ l. take offset buf ++ l) (take_front (length b) b (drop (offset + length b) buf) refl)

  drop-splice :
      (k : ℕ)
      → drop (offset + length b + k) (splice offset b buf) ≡ drop (offset + length b + k) buf
  drop-splice k =
      let rest = drop (offset + length b) buf in
      let e : offset + length b + k ≡ offset + (length b + k) = omega arith in
      ap (λ j. drop j (splice offset b buf)) e
      ∙ drop_beyond (take offset buf) (b ++ rest) offset (length b + k) front
      ∙ drop_beyond b rest (length b) k refl
      ∙ sym (drop-add (offset + length b) k buf)

  length-splice : length (splice offset b buf) ≡ length buf
  length-splice = omega (
    arith,
    length-append (take offset buf) (b ++ drop (offset + length b) buf),
    length-append b (drop (offset + length b) buf),
    length-drop (offset + length b) buf,
    front,
  )

-- A part of the FIFO stands in an array from an offset on, and is off the FIFO.
pub record Took (offset remaining : ℕ) (buf fifo : List ℕ) (r : ℤ × List ℕ) (left : List ℕ)
    : Type 0 where
  pub got : ℕ
  pub asked : got ≤ remaining
  pub there : got ≤ length fifo
  pub code : r.0 ≡ pos (offset + got)
  pub array : r.1 ≡ take offset buf ++ (take got fifo ++ drop (offset + got) buf)
  pub off : left ≡ drop got fifo

-- Nothing more is taken.
Took-none :
    (offset remaining : ℕ) (buf fifo : List ℕ)
    → Took offset remaining buf fifo (pos offset, buf) fifo
Took-none offset remaining buf fifo =
    let e : offset + 0 ≡ offset = omega arith in
    record {
      got = 0;
      asked = omega arith;
      there = omega arith;
      code = ap pos (sym e);
      array = sym (ap (λ j. take offset buf ++ drop j buf) e ∙ take-append-drop offset buf);
      off = refl;
    }

-- A block, and what is taken behind it.
Took-block :
    (offset remaining : ℕ) (b buf fifo : List ℕ) (r : ℤ × List ℕ) (left : List ℕ)
    → length b ≤ remaining
    → offset + remaining ≤ length buf
    → b ≡ take (length b) fifo
    → Took
        (offset + length b)
        (remaining - length b)
        (splice offset b buf)
        (drop (length b) fifo)
        r
        left
    → Took offset remaining buf fifo r left
Took-block offset remaining b buf fifo r left small fits e t =
    let k = length b in
    let n = k + t.got in
    let f : offset + k + t.got ≡ offset + n = omega arith in
    let have : k ≤ length fifo = omega (arith, ap length e, length-take k fifo) in
    record {
      got = n;
      asked = omega (arith, t.asked);
      there = omega (arith, t.there, length-drop k fifo);
      code = t.code ∙ ap pos f;
      array =
          t.array
          ∙ ap₂ (λ x y. x ++ (take t.got (drop k fifo) ++ y))
              (take-splice offset b buf (omega arith) ∙ ap (λ x. take offset buf ++ x) e)
              (drop-splice offset b buf (omega arith) t.got ∙ ap (λ j. drop j buf) f)
          ∙ append_assoc (take offset buf) (take k fifo)
              (take t.got (drop k fifo) ++ drop (offset + n) buf)
          ∙ ap (λ x. take offset buf ++ x)
              (sym (append_assoc (take k fifo) (take t.got (drop k fifo)) (drop (offset + n) buf))
                ∙ ap (λ x. x ++ drop (offset + n) buf) (sym (take-add k t.got fifo)));
      off = t.off ∙ sym (drop-add k t.got fifo);
    }

-- An error, or a part of the FIFO.
abbrev pub Taken : {S : Type 0} → (S → List ℕ) → ℕ → ℕ → List ℕ → List ℕ → (ℤ × List ℕ) × S → Type 0
Taken st offset remaining buf fifo r =
    (is_neg r.0.0 ≡ true) ⊎ Took offset remaining buf fifo r.0 (st r.1)

module _ (B : I2cCore) (client : ℕ) (st : IsStreaming B client) where
  after_block-Taken :
      (q : Reply) (chunk remaining offset : ℕ) (buf fifo : List ℕ) (s : B.State)
      (next : List ℕ → (ℤ × List ℕ) × B.State)
      → offset + remaining ≤ length buf
      → chunk ≤ remaining
      → ((b : List ℕ)
          → q ≡ bytes b
          → (length b ≤ chunk)
            × (b ≡ take (length b) fifo)
            × (st.fifo s ≡ drop (length b) fifo)
            × Taken st.fifo
                (offset + length b)
                (remaining - length b)
                (splice offset b buf)
                (drop (length b) fifo)
                (next b))
      → Taken st.fifo offset remaining buf fifo (after_block B q chunk offset buf s next)
  unfolding after_block
  after_block-Taken (failed n) chunk remaining offset buf fifo s next fits c h = inl refl
  after_block-Taken (bytes b) chunk remaining offset buf fifo s next fits c h =
      let (small, front, off, more) = h b refl in
      let P = Taken st.fifo offset remaining buf fifo in
      if_keeps P (length b == 0)
        (λ z.
          let e : length b ≡ 0 = ground arith in
          inr (rw (off ∙ ap (λ k. drop k fifo) e) (Took-none offset remaining buf fifo)))
        (λ _.
          if_keeps P (length b == chunk)
            (λ _. elim more [
              | inl neg ↦ inl neg
              | inr t ↦ inr (Took-block offset remaining b buf fifo _ _ (omega arith) fits front t)
            ])
            (λ _. inr (
              Took-block offset remaining b buf fifo _ _ (omega arith) fits front (
                rw off (
                  Took-none (offset + length b) (remaining - length b) (splice offset b buf)
                    (drop (length b) fifo))))))

  pub read_rounds-Taken :
      (fuel remaining offset : ℕ) (buf : List ℕ) (s : B.State)
      → offset + remaining ≤ length buf
      → Taken st.fifo offset remaining buf
          (st.fifo s)
          (read_rounds B fuel client remaining offset buf s)
  unfolding read_rounds
  read_rounds-Taken zero remaining offset buf s fits =
      inr (Took-none offset remaining buf (st.fifo s))
  read_rounds-Taken (suc fuel) remaining offset buf s fits =
      let chunk = chunk_of remaining in
      let c = chunk_lem remaining in
      let len = chunk % 256 in
      let r = B.read_i2c_block_data client 0x74 len s in
      if_keeps (Taken st.fifo offset remaining buf (st.fifo s)) (ltb 0 remaining)
        (λ _. after_block-Taken r.0 chunk remaining offset buf (st.fifo s) r.1 _ fits c.0 (λ b e.
          let small : length b ≤ chunk =
            omega (arith, (B.block_fits client 0x74 len s b e).0, c.1) in
          let (front, off) = st.brings len s b e in
          (
            small,
            front,
            off,
            rw (← off) (
                read_rounds-Taken fuel (remaining - length b) (offset + length b)
                  (splice offset b buf) r.1
                  (omega (arith, length-splice offset b buf (omega (arith, c.0)), c.0))),
          )))
        (λ _. inr (Took-none offset remaining buf (st.fifo s)))
