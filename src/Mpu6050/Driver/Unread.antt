-- ===== src/Mpu6050/Driver/Unread.antt =====
-- The local sample of the interrupt thread is not initialised before it is read: what it holds then
-- never reaches the published state.
use linux_device_drivers_hw.Base.{
  ℕ, zero, suc, ◌+◌, ◌*◌, ◌/◌, ◌%◌, ◌^◌, Bool, true, false, not, ◌≡◌, ◌⊎◌, inl, inr, refl, sym, ap,
  ap₂, ◌∙◌, List, [], ◌∷◌, Option, none, some, ℤ, pos, is_pos, is_neg, arith, if◌then◌else◌,
  pos_part, ltb, get_or, Bool-cases, test_bit,
}
use linux_device_drivers_hw.Mpu6050.Convert.{Raw, raw_to_sample_fixed}
use linux_device_drivers_hw.Mpu6050.Bus.{RegBus}
use linux_device_drivers_hw.Mpu6050.Device.{Dev, kdd_read_byte}
use linux_device_drivers_hw.Mpu6050.Fifo.{
  frame, sample_at, convert, read_fifo_bytes, fetch, get_fifo_count, read_fifo_samples,
}
use linux_device_drivers_hw.Mpu6050.Driver.{
  IrqReturn, irq_handled, Core, publish, on_status, on_read, irq_thread,
}

-- Two results under the same test.
if_both {ℓ κ} :
    {X : Type ℓ} (R : X → X → Type κ) (b : Bool) {x x' y y' : X}
    → R x x'
    → R y y'
    → R (if b then x else y) (if b then x' else y')
if_both R true p q = p
if_both R false p q = q

-- Frames beyond the first do not reach an array of one sample.
convert_single : (left i : ℕ) (tmp : List ℕ) (r : Raw) → convert left (suc i) tmp (r ∷ []) ≡ r ∷ []
unfolding convert
convert_single zero i tmp r = refl
convert_single (suc left) i tmp r =
    let e : suc i + 1 ≡ suc (suc i) = omega arith in
    ap (λ j. convert left j tmp (r ∷ [])) e ∙ convert_single left (suc i) tmp r

convert_first :
    (n : ℕ) (tmp : List ℕ) (u : Raw) → (n ≡ 0) ⊎ (convert n 0 tmp (u ∷ []) ≡ sample_at tmp 0 ∷ [])
unfolding convert
convert_first zero tmp u = inl refl
convert_first (suc left) tmp u =
    let e : 0 + 1 ≡ suc 0 = omega arith in
    inr (
      ap (λ j. convert left j tmp (sample_at tmp 0 ∷ [])) e
      ∙ convert_single left 0 tmp (sample_at tmp 0))

module _ (B : RegBus) (kmalloc : ℕ → Option (List ℕ)) where
  -- Two reads of one sample, into samples that hold u and v: the same code and bus, and the same
  -- sample if one has been read.
  abbrev Same : Raw → Raw → (ℤ × List Raw) × B.State → (ℤ × List Raw) × B.State → Type 0
  Same u v n m =
      (n.0.0 ≡ m.0.0)
      × (n.1 ≡ m.1)
      × ((is_pos n.0.0 ≡ false) ⊎ (get_or n.0.1 0 u ≡ get_or m.0.1 0 v))

  converted :
      (n : ℕ) (tmp : List ℕ) (u v : Raw) (s : B.State)
      → Same u v ((pos n, convert n 0 tmp (u ∷ [])), s) ((pos n, convert n 0 tmp (v ∷ [])), s)
  converted n tmp u v s = (
    refl,
    refl,
    elim (convert_first n tmp u) [
      | inl z ↦ inl (ground arith)
      | inr a ↦ elim (convert_first n tmp v) [
        | inl z ↦ inl (ground arith)
        | inr b ↦ inr (ap (λ l. get_or l 0 u) a ∙ sym (ap (λ l. get_or l 0 v) b))
      ]
    ],
  )

  fetch-Same :
      (o : Option (List ℕ)) (dev : Dev) (frames : ℕ) (u v : Raw) (s : B.State)
      → Same u v (fetch B o dev (u ∷ []) frames s) (fetch B o dev (v ∷ []) frames s)
  unfolding fetch
  fetch-Same none dev frames u v s = (refl, refl, inl refl)
  fetch-Same (some tmp) dev frames u v s =
      let want_bytes = frames * frame in
      let r = read_fifo_bytes B dev tmp want_bytes s in
      elim (Bool-cases (is_neg r.0.0)) [
        | inl e ↦ rw e (refl, refl, inl (ground arith))
        | inr e ↦ rw e (
            if_both (Same u v) (ltb (pos_part r.0.0) frame) (refl, refl, inl refl)
              (converted _ r.0.1 u v r.1))
      ]

  read-Same :
      (dev : Dev) (u v : Raw) (s : B.State)
      → Same u v
          (read_fifo_samples B kmalloc dev (u ∷ []) 1 s)
          (read_fifo_samples B kmalloc dev (v ∷ []) 1 s)
  unfolding read_fifo_samples
  read-Same dev u v s =
      let c = get_fifo_count B dev s in
      let avail = c.0.1 / frame in
      let frames = if ltb 1 avail then 1 else avail in
      if_both (Same u v) (not dev.initialized) (refl, refl, inl refl)
        (elim (Bool-cases (is_neg c.0.0)) [
          | inl e ↦ rw e (refl, refl, inl (ground arith))
          | inr e ↦ rw e (
              if_both (Same u v) (ltb c.0.1 frame) (refl, refl, inl refl)
                (fetch-Same (kmalloc (frames * frame)) dev frames u v c.1))
        ])

  publish_unread :
      (n m : (ℤ × List Raw) × B.State) (u v : Raw) (c : Core B)
      → Same u v n m
      → publish B kmalloc n u c ≡ publish B kmalloc m v c
  unfolding publish
  publish_unread n m u v c (code, bus, sample) =
      let a : is_pos n.0.0 ≡ is_pos m.0.0 = ap is_pos code in
      let kept : record c { bus = n.1 } ≡ record c { bus = m.1 } =
        ap (λ (t : B.State). let c1 : Core B = record c { bus = t } in c1) bus in
      elim sample [
        | inl neg ↦ let neg' : is_pos m.0.0 ≡ false = sym a ∙ neg in rw (neg, neg') kept
        | inr r ↦ rw a (
            if_both (λ (x y : Core B). x ≡ y) (is_pos m.0.0)
              (ap₂
                (λ (t : B.State) (raw : Raw).
                  let c1 : Core B = record c {
                    bus = t;
                    sample = record {
                      valid = true;
                      raw = raw;
                      fixed = raw_to_sample_fixed c.dev.accel_scale c.dev.gyro_scale raw;
                    };
                  } in
                  c1)
                bus r)
              kept)
      ]

  on_read_same :
      (r : ℤ × Option ℕ) (u v : Raw) (c : Core B)
      → on_read B kmalloc r u c ≡ on_read B kmalloc r v c
  unfolding on_read on_status
  on_read_same (ret, none) u v c = refl
  on_read_same (ret, some st) u v c =
      if_both (λ (x y : Core B). x ≡ y) (test_bit st 4) refl
        (if_both (λ (x y : Core B). x ≡ y) (test_bit st 0)
          (publish_unread (read_fifo_samples B kmalloc c.dev (u ∷ []) 1 c.bus)
            (read_fifo_samples B kmalloc c.dev (v ∷ []) 1 c.bus) u v c (read-Same c.dev u v c.bus))
          refl)

  pub irq_thread_same :
      (u v : Raw) (c : Core B) → irq_thread B kmalloc u c ≡ irq_thread B kmalloc v c
  unfolding irq_thread
  irq_thread_same u v c =
      let r = kdd_read_byte B c.dev 0x3a c.bus in
      let c1 = record c { irq_counter = (c.irq_counter + 1) % 2 ^ 32; bus = r.1 } in
      let R = λ (x y : IrqReturn × Core B). x ≡ y in
      if_both R (not c.dev.initialized) refl (
        if_both R (is_neg r.0.0) refl
          (ap (λ (t : Core B). (irq_handled, t)) (on_read_same r.0 u v c1)))
