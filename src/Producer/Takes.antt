-- ===== src/Producer/Takes.antt =====
-- The producer takes what the driver of the sensor publishes.
use mathlib.Core.Path.{subst}
use linux_device_drivers_hw.Base.{
  ℕ, Bool, ◌^◌, ◌≤◌, ◌<◌, ◌≡◌, inl, inr, refl, sym, ap, ◌∙◌, true, false, [], ◌∷◌, ◌++◌,
  append_assoc, none, some, ℤ, arith, if◌then◌else◌, length, length-append, All-append, Text, codes,
  decimal, decimal-length, decimal-All, Bool-cases, take, take_whole,
}
use linux_device_drivers_hw.Mpu6050.Convert.{SampleFixed, abs}
use linux_device_drivers_hw.Mpu6050.Driver.{SampleState}
use linux_device_drivers_hw.Mpu6050.Message.{milli_text, packed_text, dev_read_text}
use linux_device_drivers_hw.Mpu6050.Message.Field.{length-milli_text}
use linux_device_drivers_hw.Mpu6050.Message.Lines.{IsWord, count_line, dev_read_text-whole}
use linux_device_drivers_hw.Producer.{
  Floats, SampleFloat, Reading, Process, round, store, line_failed, complete,
}
use linux_device_drivers_hw.Producer.Device.{Stdio, parse_device, read_of, read_device}
use linux_device_drivers_hw.Producer.Stdio.{
  IsLine, three_text, IsStdio, three_text-append, milli-IsLine, three-IsLine, length-three,
}

module _ {F : Floats} (S : Stdio F) (of_milli : ℤ → F.Float) (lib : IsStdio S of_milli) where
  -- The sample in floats.
  abbrev pub in_floats : SampleFixed → SampleFloat F
  in_floats fx = record {
    ax = of_milli fx.ax_mg;
    ay = of_milli fx.ay_mg;
    az = of_milli fx.az_mg;
    gx = of_milli fx.gx_mdps;
    gy = of_milli fx.gy_mdps;
    gz = of_milli fx.gz_mdps;
    temp = of_milli fx.temp_mdegc;
  }

  -- A line of three numbers is read whole, and its numbers are read.
  gets_three :
      (x y z : ℤ) (tail rest : Text)
      → abs x ≤ 2 ^ 31
      → abs y ≤ 2 ^ 31
      → abs z ≤ 2 ^ 31
      → IsLine tail
      → length tail ≤ 7
      → S.fgets 128 (three_text x y z (tail ++ (10 ∷ rest)))
        ≡ some (three_text x y z (tail ++ (10 ∷ [])), rest)
  gets_three x y z tail rest hx hy hz h l =
      ap (λ (t : Text). S.fgets 128 t) (sym (three_text-append x y z tail (10 ∷ rest)))
      ∙ lib.gets 128 (three_text x y z tail) rest (omega arith) (three-IsLine x y z tail h)
          (omega (arith, length-three x y z tail hx hy hz))
      ∙ ap (λ (t : Text). some (t, rest)) (three_text-append x y z tail (10 ∷ []))

  parse_packed :
      (n : ℕ) (fx : SampleFixed)
      → n < 2 ^ 32
      → IsWord fx
      → parse_device S (count_line n ++ packed_text fx) ≡ some (in_floats fx)
  unfolding parse_device packed_text
  parse_packed n fx h w =
      let end : Text = codes ", [" ++ (194 ∷ 176 ∷ codes "C]") in
      let temp = milli_text [] fx.temp_mdegc ++ (end ++ (10 ∷ [])) in
      let gyro = three_text fx.gx_mdps fx.gy_mdps fx.gz_mdps (codes ", [dps]" ++ (10 ∷ temp)) in
      let accel = three_text fx.ax_mg fx.ay_mg fx.az_mg (codes ", [g]" ++ (10 ∷ gyro)) in
      let irq = codes "IRQ count: " ++ decimal n in
      let regroup : count_line n ++ accel ≡ irq ++ (10 ∷ accel) =
        ap (λ (t : Text). codes "IRQ count: " ++ t) (append_assoc (decimal n) (10 ∷ []) accel) in
      let first : S.fgets 128 (irq ++ (10 ∷ accel)) ≡ some (irq ++ (10 ∷ []), accel) =
        lib.gets 128 irq accel (omega arith)
          (All-append (λ (c : ℕ). 31 < c) (codes "IRQ count: ") (decimal n) (omega arith)
            (decimal-All n))
          (omega (
            arith,
            length-append (codes "IRQ count: ") (decimal n),
            decimal-length n 9 (omega arith),
          )) in
      let second =
        gets_three fx.ax_mg fx.ay_mg fx.az_mg (codes ", [g]") gyro w.ax w.ay w.az (omega arith)
          (omega arith) in
      let third =
        gets_three fx.gx_mdps fx.gy_mdps fx.gz_mdps (codes ", [dps]") temp w.gx w.gy w.gz
          (omega arith) (omega arith) in
      let fourth : S.fgets 128 temp ≡ some (temp, []) =
        ap (λ (t : Text). S.fgets 128 t)
          (sym (append_assoc (milli_text [] fx.temp_mdegc) end (10 ∷ [])))
        ∙ lib.gets 128 (milli_text [] fx.temp_mdegc ++ end) [] (omega arith)
            (All-append (λ (c : ℕ). 31 < c) (milli_text [] fx.temp_mdegc) end
              (milli-IsLine [] fx.temp_mdegc tt) (omega arith))
            (omega (
              arith,
              length-append (milli_text [] fx.temp_mdegc) end,
              length-milli_text [] fx.temp_mdegc (omega arith) w.temp,
            ))
        ∙ ap (λ (t : Text). some (t, []))
            (append_assoc (milli_text [] fx.temp_mdegc) end (10 ∷ [])) in
      let a = lib.three fx.ax_mg fx.ay_mg fx.az_mg (codes " [g]\n") w.ax w.ay w.az in
      let g = lib.three fx.gx_mdps fx.gy_mdps fx.gz_mdps (codes " [dps]\n") w.gx w.gy w.gz in
      let c = lib.one fx.temp_mdegc (codes " [" ++ (194 ∷ 176 ∷ codes "C]\n")) w.temp in
      ap (parse_device S) regroup
      ∙ (rw first (rw second (rw a (rw third (rw g (rw fourth (rw c refl)))))))

  -- The text of a driver that has not published a sample.
  parse_no_sample :
      (n : ℕ) (s : SampleState)
      → s.valid ≡ false
      → n < 2 ^ 32
      → parse_device S (dev_read_text n s) ≡ none
  unfolding parse_device dev_read_text
  parse_no_sample n s v h =
      let irq = codes "IRQ count: " ++ decimal n in
      let second : Text = codes "(no sample yet)" ++ (10 ∷ []) in
      let text = irq ++ (10 ∷ second) in
      let whole : take 255 text ≡ text = take_whole 255 text (
        omega (
          arith,
          length-append irq (10 ∷ second),
          length-append (codes "IRQ count: ") (decimal n),
          decimal-length n 9 (omega arith),
        )) in
      let first : S.fgets 128 text ≡ some (irq ++ (10 ∷ []), second) =
        lib.gets 128 irq second (omega arith)
          (All-append (λ (c : ℕ). 31 < c) (codes "IRQ count: ") (decimal n) (omega arith)
            (decimal-All n))
          (omega (
            arith,
            length-append (codes "IRQ count: ") (decimal n),
            decimal-length n 9 (omega arith),
          )) in
      let line : S.fgets 128 second ≡ some (second, []) =
        lib.gets 128 (codes "(no sample yet)") [] (omega arith) (omega arith) (omega arith) in
      rw v (rw whole (rw first (rw line (rw (lib.other (codes "no sample yet)\n")) refl))))

  -- What the producer makes of the text of a driver that has published a sample.
  pub read_device-published :
      (n : ℕ) (s : SampleState)
      → s.valid ≡ true
      → n < 2 ^ 32
      → IsWord s.fixed
      → read_device S (dev_read_text n s) ≡ complete (in_floats s.fixed)
  unfolding read_device
  read_device-published n s v h w =
      ap read_of (ap (parse_device S) (dev_read_text-whole n s v h w) ∙ parse_packed n s.fixed h w)

  pub read_device-no_sample :
      (n : ℕ) (s : SampleState)
      → s.valid ≡ false
      → n < 2 ^ 32
      → read_device S (dev_read_text n s) ≡ line_failed
  unfolding read_device
  read_device-no_sample n s v h = ap read_of (parse_no_sample n s v h)

  -- What a round leaves, by whether there is a sample.
  abbrev Leaves : SampleState → Process F → Bool → Reading F → Type 0
  Leaves s p valid r =
      let q = round r p in
      (q.shared_data ≡ (if valid then store F (in_floats s.fixed) p.shared_data else p.shared_data))
      × (q.fds ≡ p.fds)

  round_complete :
      (s : SampleState) (p : Process F) → Leaves s p true (complete (in_floats s.fixed))
  unfolding round
  round_complete s p = (refl, omega arith)

  round_failed : (s : SampleState) (p : Process F) → Leaves s p false line_failed
  unfolding round
  round_failed s p = (refl, omega arith)

  -- With a C library whose fgets and sscanf do what IsStdio says, a round of the producer on the
  -- text that dev_read of the sensor's driver makes, from a 32-bit interrupt count and 32-bit
  -- values, stores exactly the published sample, each value as the float for its thousandths, when
  -- there is one, and leaves the shared memory alone when there is none yet; and it closes what it
  -- has opened.
  pub round_takes :
      (n : ℕ) (s : SampleState) (p : Process F)
      → n < 2 ^ 32
      → IsWord s.fixed
      → let q = round (read_device S (dev_read_text n s)) p in
        (q.shared_data
          ≡ (if s.valid then store F (in_floats s.fixed) p.shared_data else p.shared_data))
        × (q.fds ≡ p.fds)
  round_takes n s p h w = elim (Bool-cases s.valid) [
    | inl v ↦
        subst (λ (b : Bool). Leaves s p b (read_device S (dev_read_text n s))) (sym v)
          (subst (Leaves s p true) (sym (read_device-published n s v h w)) (round_complete s p))
    | inr v ↦
        subst (λ (b : Bool). Leaves s p b (read_device S (dev_read_text n s))) (sym v)
          (subst (Leaves s p false) (sym (read_device-no_sample n s v h)) (round_failed s p))
  ]
