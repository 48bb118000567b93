-- ===== src/Mpu6050/Driver/Published.antt =====
-- What a reader of the published sample may rely on, over any sequence of interrupts.
use linux_device_drivers_hw.Base.{
  ℕ, ◌+◌, ◌%◌, ◌^◌, true, false, not, ◌≡◌, ◌⊎◌, inl, inr, Bool-cases, ◌∙◌, refl, List, [], ◌∷◌,
  Option, none, some, ℤ, is_neg, is_pos, if_keeps, test_bit, ap, arith, length,
}
use linux_device_drivers_hw.Mpu6050.Convert.{Raw, raw_to_sample_fixed}
use linux_device_drivers_hw.Mpu6050.Bus.{RegBus}
use linux_device_drivers_hw.Mpu6050.Device.{kdd_read_byte}
use linux_device_drivers_hw.Mpu6050.Fifo.{read_fifo_samples}
use linux_device_drivers_hw.Mpu6050.Driver.{
  IrqReturn, Core, publish, on_status, on_read, irq_thread,
}
use linux_device_drivers_hw.Mpu6050.Driver.Unread.{irq_thread_same}

-- A valid sample is the conversion of its own raw readings under the device's scales.
abbrev pub IsConsistent : {B : RegBus} → Core B → Type 0
IsConsistent c =
    (c.sample.valid ≡ false)
    ⊎ (c.sample.fixed ≡ raw_to_sample_fixed c.dev.accel_scale c.dev.gyro_scale c.sample.raw)

-- What an interrupt keeps: the consistency of the sample, the device, and that there is a sample.
abbrev Follows : {B : RegBus} → Core B → Core B → Type 0
Follows c t =
    (IsConsistent c → IsConsistent t)
    × (t.dev ≡ c.dev)
    × (c.sample.valid ≡ true → t.sample.valid ≡ true)

module _ (B : RegBus) (kmalloc : ℕ → Option (List ℕ)) where
  publish-Follows :
      (n : (ℤ × List Raw) × B.State) (unread : Raw) (c : Core B)
      → Follows c (publish B kmalloc n unread c)
  unfolding publish
  publish-Follows n unread c =
      if_keeps (Follows c) (is_pos n.0.0) (λ _. (λ _. inr refl, refl, λ _. refl))
        (λ _. (λ h. h, refl, λ h. h))

  on_status-Follows :
      (st : ℕ) (unread : Raw) (c : Core B) → Follows c (on_status B kmalloc st unread c)
  unfolding on_status
  on_status-Follows st unread c =
      let n = read_fifo_samples B kmalloc c.dev (unread ∷ []) 1 c.bus in
      if_keeps (Follows c) (test_bit st 4) (λ _. (λ h. h, refl, λ h. h))
        (λ _.
          if_keeps (Follows c) (test_bit st 0) (λ _. publish-Follows n unread c)
            (λ _. (λ h. h, refl, λ h. h)))

  on_read-Follows :
      (r : ℤ × Option ℕ) (unread : Raw) (c : Core B) → Follows c (on_read B kmalloc r unread c)
  unfolding on_read
  on_read-Follows (ret, none) unread c = (λ h. h, refl, λ h. h)
  on_read-Follows (ret, some st) unread c = on_status-Follows st unread c

  irq_thread-Follows : (unread : Raw) (c : Core B) → Follows c (irq_thread B kmalloc unread c).1
  unfolding irq_thread
  irq_thread-Follows unread c =
      let r = kdd_read_byte B c.dev 0x3a c.bus in
      let c1 = record c { irq_counter = (c.irq_counter + 1) % 2 ^ 32; bus = r.1 } in
      if_keeps (λ (t : IrqReturn × Core B). Follows c t.1) (not c.dev.initialized)
        (λ _. (λ h. h, refl, λ h. h))
        (λ _.
          if_keeps (λ (t : IrqReturn × Core B). Follows c t.1) (is_neg r.0.0)
            (λ _. (λ h. h, refl, λ h. h)) (λ _. on_read-Follows r.0 unread c1))

  -- The thread on a sequence of interrupts.
  abbrev pub irq_threads : List Raw → Core B → Core B
  irq_threads [] c = c
  irq_threads (unread ∷ us) c = irq_threads us (irq_thread B kmalloc unread c).1

  irq_threads-Follows : (us : List Raw) (c : Core B) → Follows c (irq_threads us c)
  irq_threads-Follows [] c = (λ h. h, refl, λ h. h)
  irq_threads-Follows (unread ∷ us) c =
      let f = irq_thread-Follows unread c in
      let g = irq_threads-Follows us (irq_thread B kmalloc unread c).1 in
      (λ h. g.0 (f.0 h), g.1 ∙ f.1, λ h. g.2 (f.2 h))

  irq_threads_same :
      (us vs : List Raw) (c : Core B) → length us ≡ length vs → irq_threads us c ≡ irq_threads vs c
  irq_threads_same [] [] c h = refl
  irq_threads_same [] (v ∷ vs) c h = absurd (omega arith)
  irq_threads_same (u ∷ us) [] c h = absurd (omega arith)
  irq_threads_same (u ∷ us) (v ∷ vs) c h =
      ap (λ (r : IrqReturn × Core B). irq_threads us r.1) (irq_thread_same B kmalloc u v c)
      ∙ irq_threads_same us vs (irq_thread B kmalloc v c).1 (omega arith)

  -- When the published sample is invalid or the conversion of its own raw readings under the
  -- device's scales, it is so after any sequence of interrupts, with any answers of the bus and of
  -- kmalloc; the device is as before, and a valid sample has not become invalid. And what the
  -- uninitialised local samples of the interrupts hold has no influence on the state afterwards:
  -- none of it is ever published.
  pub irq_threads-IsConsistent :
      (us vs : List Raw) (c : Core B)
      → IsConsistent c
      → length us ≡ length vs
      → let t = irq_threads us c in
        IsConsistent t
        × (t.dev ≡ c.dev)
        × ((c.sample.valid ≡ false) ⊎ (t.sample.valid ≡ true))
        × (t ≡ irq_threads vs c)
  irq_threads-IsConsistent us vs c h l =
      let f = irq_threads-Follows us c in
      (
        f.0 h,
        f.1,
        elim (Bool-cases c.sample.valid) [ inl v ↦ inr (f.2 v) | inr n ↦ inl n ],
        irq_threads_same us vs c l,
      )
