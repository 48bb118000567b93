-- ===== src/Mpu6050/Fifo/Samples.antt =====
-- The samples that are read from the FIFO: the result is bounded by what the caller asks for, an
-- error leaves the caller's array alone, and a sample decodes from the bytes it was encoded in.
use mathlib.Core.Path.{subst}
use linux_device_drivers_hw.Base.{
  ℕ, zero, suc, ◌+◌, ◌-◌, ◌*◌, ◌/◌, ◌%◌, ◌^◌, ◌≤◌, ◌<◌, true, false, ◌≡◌, ◌⊎◌, inl, inr, refl, sym,
  ap, ap₂, ◌∙◌, List, [], ◌∷◌, ◌++◌, Option, none, some, ℤ, pos, negsuc, arith, is_neg, not, ◌==◌,
  if◌then◌else◌, if_keeps, ltb, length, All, take-append-drop, take-set, drop-set, append_assoc,
  append-nil, length-append, length-set, get_or, set, take, drop, pos_part, signed16,
}
use linux_device_drivers_hw.Mpu6050.Convert.{Raw, IsShort, IsRaw}
use linux_device_drivers_hw.Mpu6050.Bus.{RegBus}
use linux_device_drivers_hw.Mpu6050.Device.{Dev}
use linux_device_drivers_hw.Mpu6050.Fifo.{
  frame, be16, sample_at, convert, fetch, get_fifo_count, read_fifo_bytes, read_fifo_samples,
}
use linux_device_drivers_hw.Mpu6050.Fifo.Slices.{take_beyond}
use linux_device_drivers_hw.Mpu6050.Fifo.Chunks.{
  IsArray, IsStream, read_fifo_bytes_end, read_fifo_bytes_stream,
}

-- The two bytes of a `short`, the high one first.
abbrev word_of : ℤ → ℕ
word_of (pos n) = n
word_of (negsuc n) = 2 ^ 16 - suc n

abbrev bytes_of : ℤ → List ℕ → List ℕ
bytes_of v rest = word_of v / 2 ^ 8 ∷ word_of v % 2 ^ 8 ∷ rest

-- A sample as the sensor puts it in the FIFO.
abbrev pub encode : Raw → List ℕ
encode r = bytes_of r.ax (
    bytes_of r.ay
      (bytes_of r.az (bytes_of r.temp (bytes_of r.gx (bytes_of r.gy (bytes_of r.gz []))))))

abbrev pub encode_all : List Raw → List ℕ
encode_all [] = []
encode_all (r ∷ rs) = encode r ++ encode_all rs

word_round_trip : (v : ℤ) → IsShort v → signed16 (word_of v / 2 ^ 8 * 2 ^ 8 + word_of v % 2 ^ 8) ≡ v
word_round_trip (pos n) h = ground arith
word_round_trip (negsuc n) h = ground arith

sample_round_trip : (r : Raw) (rest : List ℕ) → IsRaw r → sample_at (encode r ++ rest) 0 ≡ r
unfolding sample_at be16
sample_round_trip r rest h =
    rw
      (
        word_round_trip r.ax h.ax,
        word_round_trip r.ay h.ay,
        word_round_trip r.az h.az,
        word_round_trip r.temp h.temp,
        word_round_trip r.gx h.gx,
        word_round_trip r.gy h.gy,
        word_round_trip r.gz h.gz,
      )
      refl

length-convert :
    (left i : ℕ) (tmp : List ℕ) (samples : List Raw)
    → length (convert left i tmp samples) ≡ length samples
unfolding convert
length-convert zero i tmp samples = refl
length-convert (suc left) i tmp samples =
    length-convert left (i + 1) tmp (set samples i (sample_at tmp (i * frame)))
    ∙ length-set samples i (sample_at tmp (i * frame))

-- What read_fifo_samples ends with: an error with the caller's array as it was, or a number of
-- samples that the caller's array has room for.
abbrev IsAnswer : ℕ → List Raw → ℤ × List Raw → Type 0
IsAnswer max_samples samples r =
    ((is_neg r.0 ≡ true) × (r.1 ≡ samples))
    ⊎ ((n : ℕ) × (r.0 ≡ pos n) × (n ≤ max_samples) × (length r.1 ≡ length samples))

module _ (B : RegBus) (kmalloc : ℕ → Option (List ℕ)) (dev : Dev) where
  fetch-IsAnswer :
      (o : Option (List ℕ)) (samples : List Raw) (frames max_samples : ℕ) (s : B.State)
      → ((tmp : List ℕ) → o ≡ some tmp → IsArray (frames * frame) tmp)
      → frames ≤ max_samples
      → IsAnswer max_samples samples (fetch B o dev samples frames s).0
  unfolding fetch
  fetch-IsAnswer none samples frames max_samples s h l = inl (refl, refl)
  fetch-IsAnswer (some tmp) samples frames max_samples s h l =
      let r = read_fifo_bytes B dev tmp (frames * frame) s in
      let e = (read_fifo_bytes_end B dev tmp (frames * frame) s (h tmp refl)).0 in
      if_keeps (λ (t : (ℤ × List Raw) × B.State). IsAnswer max_samples samples t.0) (is_neg r.0.0)
        (λ neg. inl (neg, refl))
        (λ more.
          if_keeps (λ (t : (ℤ × List Raw) × B.State). IsAnswer max_samples samples t.0)
            (ltb (pos_part r.0.0) frame) (λ _. inr (0, refl, omega arith, refl))
            (λ _. inr (_, refl, ground arith, length-convert _ 0 r.0.1 samples)))

  -- mpu6050_read_fifo_samples, whatever the bus does and with a kmalloc that returns NULL or a
  -- block of the size asked for, returns a negative error and leaves the caller's array as it was,
  -- or returns at most `max_samples`, and the array keeps its length.
  read_fifo_samples_bounds :
      (samples : List Raw) (max_samples : ℕ) (s : B.State)
      → ((n : ℕ) (tmp : List ℕ) → kmalloc n ≡ some tmp → IsArray n tmp)
      → IsAnswer max_samples samples (read_fifo_samples B kmalloc dev samples max_samples s).0
  unfolding read_fifo_samples
  read_fifo_samples_bounds samples max_samples s h =
      let c = get_fifo_count B dev s in
      let avail = c.0.1 / frame in
      let frames = if ltb max_samples avail then max_samples else avail in
      let P = λ (t : (ℤ × List Raw) × B.State). IsAnswer max_samples samples t.0 in
      if_keeps P (not dev.initialized) (λ _. inl (refl, refl))
        (λ _.
          if_keeps P (max_samples == 0) (λ _. inl (refl, refl))
            (λ _.
              if_keeps P (is_neg c.0.0) (λ neg. inl (neg, refl))
                (λ _.
                  if_keeps P (ltb c.0.1 frame) (λ _. inr (0, refl, omega arith, refl))
                    (λ _.
                      fetch-IsAnswer (kmalloc (frames * frame)) samples frames max_samples c.1
                        (h (frames * frame)) (ground arith)))))

get_or_beyond :
    (pre xs : List ℕ) (n k d : ℕ) → length pre ≡ n → get_or (pre ++ xs) (n + k) d ≡ get_or xs k d
get_or_beyond [] xs zero k d h = let e : 0 + k ≡ k = omega arith in ap (λ j. get_or xs j d) e
get_or_beyond [] xs (suc n) k d h = absurd (omega arith)
get_or_beyond (x ∷ pre) xs zero k d h = absurd (omega arith)
get_or_beyond (x ∷ pre) xs (suc n) k d h =
    let e : suc n + k ≡ suc (n + k) = omega arith in
    ap (λ j. get_or (x ∷ (pre ++ xs)) j d) e ∙ get_or_beyond pre xs n k d (omega arith)

be16_beyond : (pre xs : List ℕ) (n k : ℕ) → length pre ≡ n → be16 (pre ++ xs) (n + k) ≡ be16 xs k
unfolding be16
be16_beyond pre xs n k h =
    let e : n + k + 1 ≡ n + (k + 1) = omega arith in
    rw (e, get_or_beyond pre xs n k 0 h, get_or_beyond pre xs n (k + 1) 0 h) refl

sample_beyond :
    (pre xs : List ℕ) (n : ℕ) → length pre ≡ n → sample_at (pre ++ xs) n ≡ sample_at xs 0
unfolding sample_at
sample_beyond pre xs n h =
    rw
      (
        be16_beyond pre xs n 0 h,
        be16_beyond pre xs n 2 h,
        be16_beyond pre xs n 4 h,
        be16_beyond pre xs n 6 h,
        be16_beyond pre xs n 8 h,
        be16_beyond pre xs n 10 h,
        be16_beyond pre xs n 12 h,
      )
      refl

-- The conversion of encoded samples, whose readings are shorts, behind the bytes of `i` frames
-- puts them into an array that has room for them from index `i` on, in their order, and leaves
-- its other elements alone, whatever stands behind the samples.
pub convert_decodes :
    (rs : List Raw) (i : ℕ) (pre more : List ℕ) (samples : List Raw)
    → All IsRaw rs
    → length pre ≡ i * frame
    → i + length rs ≤ length samples
    → convert (length rs) i (pre ++ (encode_all rs ++ more)) samples
      ≡ take i samples ++ (rs ++ drop (i + length rs) samples)
unfolding convert
convert_decodes [] i pre more samples h p l =
    let e : i + 0 ≡ i = omega arith in
    sym (ap (λ j. take i samples ++ drop j samples) e ∙ take-append-drop i samples)
convert_decodes (r ∷ rs) i pre more samples h p l =
    let xs = encode_all rs ++ more in
    let at : sample_at (pre ++ (encode r ++ xs)) (i * frame) ≡ r =
      sample_beyond pre (encode r ++ xs) (i * frame) p ∙ sample_round_trip r xs h.0 in
    let next = set samples i r in
    let rec =
      convert_decodes rs (i + 1) (pre ++ encode r) more next h.1
        (omega (arith, length-append pre (encode r))) (omega (arith, length-set samples i r)) in
    let rest = rs ++ drop (i + 1 + length rs) next in
    let e : i + 1 ≡ suc i = omega arith in
    let f : i + 1 + length rs ≡ i + suc (length rs) = omega arith in
    ap₂ (λ b v. convert (length rs) (i + 1) b (set samples i v))
      (sym (append_assoc pre (encode r) xs)) at
    ∙ rec
    ∙ ap (λ t. t ++ rest) (ap (λ j. take j next) e ∙ take-set samples i r (omega arith))
    ∙ append_assoc (take i samples) (r ∷ []) rest
    ∙ ap (λ d. take i samples ++ (r ∷ (rs ++ d)))
        (drop-set samples i (i + 1 + length rs) r (omega arith) ∙ ap (λ j. drop j samples) f)

-- The bytes of the FIFO that are not asked for do not show.
take_encoded :
    (rs : List Raw) (more : List ℕ)
    → take (length rs * frame) (encode_all rs ++ more) ≡ encode_all rs
take_encoded [] more = refl
take_encoded (r ∷ rs) more =
    let e : suc (length rs) * frame ≡ frame + length rs * frame = omega arith in
    let rest = encode_all rs ++ more in
    ap (λ j. take j (encode r ++ rest)) e
    ∙ take_beyond (encode r) rest frame (length rs * frame) refl
    ∙ ap (λ t. encode r ++ t) (take_encoded rs more)

length-encode_all :
    (rs : List Raw) (more : List ℕ) → length rs * frame ≤ length (encode_all rs ++ more)
length-encode_all [] more = omega arith
length-encode_all (r ∷ rs) more = omega (arith, length-encode_all rs more)

-- On a bus that streams the FIFO, with an initialised device and a FIFO that starts with one or
-- more encoded samples whose readings are shorts, the fetch of as many frames into a block of
-- their size returns their number and puts the samples into the caller's array, which has room
-- for them, in their order, and leaves its other elements alone.
pub fetch_decodes :
    (B : RegBus) (dev : Dev) (st : IsStream B dev.i2c_addr) (rs samples : List Raw)
    (tmp more : List ℕ) (s : B.State)
    → dev.initialized ≡ true
    → All IsRaw rs
    → 0 < length rs
    → length rs ≤ length samples
    → length tmp ≡ length rs * frame
    → st.Streams s (length rs * frame) (encode_all rs ++ more)
    → (fetch B (some tmp) dev samples (length rs) s).0
      ≡ (pos (length rs), rs ++ drop (length rs) samples)
unfolding fetch
fetch_decodes B dev st rs samples tmp more s i raw p l t f =
    let n = length rs * frame in
    let all = encode_all rs ++ more in
    let k : length tmp ≤ length all = omega (arith, length-encode_all rs more) in
    let here : st.Streams s (length tmp) all = subst (λ (j : ℕ). st.Streams s j all) (sym t) f in
    let q : (read_fifo_bytes B dev tmp n s).0 ≡ (pos n, encode_all rs) =
      ap (λ j. (read_fifo_bytes B dev tmp j s).0) (sym t)
      ∙ (read_fifo_bytes_stream B dev st tmp all s here i (omega arith) k).0
      ∙ ap (λ j. (pos j, take j all)) t
      ∙ ap (λ u. (pos n, u)) (take_encoded rs more) in
    let code : (read_fifo_bytes B dev tmp n s).0.0 ≡ pos n = ap (λ u. u.0) q in
    let got : (read_fifo_bytes B dev tmp n s).0.1 ≡ encode_all rs = ap (λ u. u.1) q in
    let some_frame : ltb n frame ≡ false = ground arith in
    let every_byte : ltb n n ≡ false = ground arith in
    let c =
      ap (λ b. convert (length rs) 0 b samples) (sym (append-nil (encode_all rs)))
      ∙ convert_decodes rs 0 [] [] samples raw (omega arith) (omega arith) in
    let e : 0 + length rs ≡ length rs = omega arith in
    simp (code, got, some_frame, every_byte)
      (ap (λ u. (pos (length rs), u)) (c ∙ ap (λ j. rs ++ drop j samples) e))
