-- ===== src/Server/Cache/Published.antt =====
-- From the sensor's driver to a waiting client of the server: the text of the device, the
-- producer's rounds, the shared memory, a round of the reader thread, the cache.
use mathlib.Core.Path.{subst}
use linux_device_drivers_hw.Base.{
  ℕ, suc, ◌^◌, ◌<◌, ◌≤◌, ◌≡◌, ◌≢◌, ◌⊎◌, inl, inr, refl, sym, ap, ◌∙◌, true, false, List, [], ◌∷◌,
  ◌++◌, some, arith, length, All, Bool, ◌≤ℤ◌, ℤ, pos, negsuc, if◌then◌else◌,
}
use linux_device_drivers_hw.Mpu6050.Convert.{
  raw_to_sample_fixed, IsRaw, raw_to_sample_fixed-IsScaled, SampleFixed, IsScaled, abs,
}
use linux_device_drivers_hw.Mpu6050.Driver.{SampleState}
use linux_device_drivers_hw.Mpu6050.Message.{dev_read_text}
use linux_device_drivers_hw.Mpu6050.Message.Lines.{IsWord}
use linux_device_drivers_hw.Producer.{
  Floats, SampleFloat, SharedData, Reading, Process, round, rounds, zero_sample, divide_all,
  cleared, store,
}
use linux_device_drivers_hw.Producer.Average.{stores, sum}
use linux_device_drivers_hw.Producer.Device.{Stdio, read_device}
use linux_device_drivers_hw.Producer.Files.{samples_of, rounds-stores}
use linux_device_drivers_hw.Producer.Stdio.{IsStdio}
use linux_device_drivers_hw.Producer.Takes.{
  round_takes, in_floats, read_device-published, read_device-no_sample,
}
use linux_device_drivers_hw.Server.Cache.{CachedData, reader_round, get_cached_data, wait_loop}
use linux_device_drivers_hw.Server.Cache.Pipeline.{sample_arrives}

-- What a reader meets at the driver: the interrupt count, and a sample that is not yet there or is
-- the conversion of its own raw readings under the scales.
pub record IsRead (accel_scale gyro_scale n : ℕ) (s : SampleState) : Type 0 where
  pub count : n < 2 ^ 32
  pub sample :
      (s.valid ≡ false)
      ⊎ ((s.valid ≡ true)
          × IsRaw s.raw
          × (s.fixed ≡ raw_to_sample_fixed accel_scale gyro_scale s.raw))

abs_temp : (v : ℤ) → (negsuc 59845 ≤ℤ v) × (v ≤ℤ pos 132903) → abs v ≤ 2 ^ 31
abs_temp (pos n) h = omega arith
abs_temp (negsuc n) h = omega arith

scaled-IsWord : (accel gyro : ℕ) (o : SampleFixed) → IsScaled accel gyro o → IsWord o
scaled-IsWord accel gyro o h = record {
  ax = omega (arith, h.ax, h.scales);
  ay = omega (arith, h.ay, h.scales);
  az = omega (arith, h.az, h.scales);
  gx = omega (arith, h.gx, h.scales);
  gy = omega (arith, h.gy, h.scales);
  gz = omega (arith, h.gz, h.scales);
  temp = abs_temp o.temp_mdegc h.temp;
}

-- What a published sample is converted to fits a word.
published-IsWord :
    (accel_scale gyro_scale : ℕ) (s : SampleState)
    → IsRaw s.raw
    → s.fixed ≡ raw_to_sample_fixed accel_scale gyro_scale s.raw
    → IsWord s.fixed
published-IsWord accel_scale gyro_scale s h e =
    subst IsWord (sym e)
      (scaled-IsWord _ _ _ (raw_to_sample_fixed-IsScaled accel_scale gyro_scale s.raw h))

module _ {F : Floats} (S : Stdio F) (of_milli : ℤ → F.Float) (lib : IsStdio S of_milli) where
  -- A round of the producer at the driver.
  abbrev pub reading : ℕ → SampleState → Reading F
  reading n s = read_device S (dev_read_text n s)

  abbrev pub readings : List (ℕ × SampleState) → List (Reading F)
  readings [] = []
  readings ((n, s) ∷ rs) = reading n s ∷ readings rs

  -- The published samples, in floats.
  abbrev pub taken : List (ℕ × SampleState) → List (SampleFloat F)
  taken [] = []
  taken ((n, s) ∷ rs) = if s.valid then in_floats S of_milli lib s.fixed ∷ taken rs else taken rs

  -- The producer has the samples that were there, in their order.
  samples-readings :
      (accel_scale gyro_scale : ℕ) (rs : List (ℕ × SampleState))
      → All (λ (r : ℕ × SampleState). IsRead accel_scale gyro_scale r.0 r.1) rs
      → samples_of F (readings rs) ≡ taken rs
  samples-readings a g [] h = refl
  samples-readings a g ((n, s) ∷ rs) (k, h) =
      let rest = samples-readings a g rs h in
      elim k.sample [
        | inl none ↦
            ap (λ (r : Reading F). samples_of F (r ∷ readings rs))
              (read_device-no_sample S of_milli lib n s none k.count)
            ∙ rest
            ∙ sym (
                ap
                  (λ (b : Bool).
                    if b then in_floats S of_milli lib s.fixed ∷ taken rs else taken rs)
                  none)
        | inr (valid, raw, fixed) ↦
            ap (λ (r : Reading F). samples_of F (r ∷ readings rs))
              (read_device-published S of_milli lib n s valid k.count
                (published-IsWord a g s raw fixed))
            ∙ ap (λ (l : List (SampleFloat F)). in_floats S of_milli lib s.fixed ∷ l) rest
            ∙ sym (
                ap
                  (λ (b : Bool).
                    if b then in_floats S of_milli lib s.fixed ∷ taken rs else taken rs)
                  valid)
      ]

  length-taken : (rs : List (ℕ × SampleState)) → length (taken rs) ≤ length rs
  length-taken [] = omega arith
  length-taken ((n, s) ∷ rs) = ground (arith, length-taken rs)

  -- The producer's rounds at the driver, one after the other, and one more.
  stored-published :
      (accel_scale gyro_scale n : ℕ) (rs : List (ℕ × SampleState)) (s : SampleState) (p : Process F)
      → All (λ (r : ℕ × SampleState). IsRead accel_scale gyro_scale r.0 r.1) rs
      → IsRead accel_scale gyro_scale n s
      → s.valid ≡ true
      → (round (reading n s) (rounds (readings rs) p)).shared_data
        ≡ store F (in_floats S of_milli lib s.fixed) (stores F (taken rs) p.shared_data)
  stored-published a g n rs s p h k v =
      let p1 = rounds (readings rs) p in
      let x = in_floats S of_milli lib s.fixed in
      let word : IsWord s.fixed = elim k.sample [
        | inl none ↦ cc
        | inr (valid, raw, fixed) ↦ published-IsWord a g s raw fixed
      ] in
      (round_takes S of_milli lib n s p1 k.count word).0
      ∙ ap (λ (b : Bool). if b then store F x p1.shared_data else p1.shared_data) v
      ∙ ap (store F x) (rounds-stores F (readings rs) p)
      ∙ ap (λ (l : List (SampleFloat F)). store F x (stores F l p.shared_data))
          (samples-readings a g rs h)

  -- What a waiting client of the server has when the reader thread has run on the memory.
  abbrev pub Brought : List (SampleFloat F) → SampleFloat F → CachedData F → CachedData F → Type 0
  Brought xs x c t =
      (get_cached_data t
        ≡ (x, divide_all F (sum F (xs ++ x ∷ []) (zero_sample F)) (suc (length xs))))
      × (t.version ≢ c.version)
      × (wait_loop c.version (record { timed_out = false; cache = t; running = true } ∷ []) true c
          ≡ some t)

  -- Given a C library whose fgets and sscanf do what IsStdio says, a producer that starts with
  -- cleared memory, reads the driver fewer than 127 times and then once more, and a driver that has
  -- at each read a 32-bit interrupt count and no sample yet or the conversion of raw readings that
  -- are shorts, and has a sample at the last: a round of the reader thread of the server then puts
  -- the last sample, converted and as the floats of its thousandths, and the average of all samples
  -- that were there, into the cache under another version, and a client that waits with the version
  -- before and is woken gets them. The cache's version is a uint64_t.
  pub published_arrives :
      (accel_scale gyro_scale n : ℕ) (rs : List (ℕ × SampleState)) (s : SampleState) (p : Process F)
      (c : CachedData F)
      → All (λ (r : ℕ × SampleState). IsRead accel_scale gyro_scale r.0 r.1) rs
      → length rs < 127
      → n < 2 ^ 32
      → s.valid ≡ true
      → IsRaw s.raw
      → s.fixed ≡ raw_to_sample_fixed accel_scale gyro_scale s.raw
      → p.shared_data ≡ cleared F
      → c.version < 2 ^ 64
      → let q = round (reading n s) (rounds (readings rs) p) in
        Brought
          (taken rs)
          (in_floats S of_milli lib (raw_to_sample_fixed accel_scale gyro_scale s.raw))
          c
          (reader_round q.shared_data c)
  published_arrives a g n rs s p c h few count valid raw fixed start v =
      let x = in_floats S of_milli lib s.fixed in
      let k : IsRead a g n s = record { count = count; sample = inr (valid, raw, fixed) } in
      let e =
        stored-published a g n rs s p h k valid
        ∙ ap (λ (d : SharedData F). store F x (stores F (taken rs) d)) start in
      subst
        (λ (fx : SampleFixed).
          Brought (taken rs) (in_floats S of_milli lib fx) c
            (reader_round (round (reading n s) (rounds (readings rs) p)).shared_data c))
        fixed
        (subst (λ (d : SharedData F). Brought (taken rs) x c (reader_round d c)) (sym e)
          (sample_arrives F (taken rs) x c (omega (arith, length-taken rs)) v))
