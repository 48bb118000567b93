-- ===== src/Mpu6050/Message/Lines.antt =====
-- The whole text of dev_read fits its buffer and reads back.
use linux_device_drivers_hw.Base.Options.{◌>>=◌}
use linux_device_drivers_hw.Base.{
  ℕ, ◌-◌, ◌^◌, ◌≤◌, ◌<◌, ◌≡◌, inl, inr, refl, ap, ◌∙◌, true, false, [], ◌∷◌, ◌++◌, append_assoc,
  Option, none, some, ℤ, arith, if◌then◌else◌, ◌==◌, length, length-append, Text, codes, decimal,
  decimal-length, read_digits, Stops, read_digits-decimal,
}
use linux_device_drivers_hw.Base.{take_whole}
use linux_device_drivers_hw.Mpu6050.Convert.{Raw, SampleFixed, abs}
use linux_device_drivers_hw.Mpu6050.Driver.{SampleState}
use linux_device_drivers_hw.Mpu6050.Message.{milli_text, packed_text, print_msg, dev_read_text}
use linux_device_drivers_hw.Mpu6050.Message.Field.{
  read_milli, read_milli-milli_text, length-milli_text,
}

-- The text behind an expected beginning.
unfoldable pub expect : Text → Text → Option Text
expect [] t = some t
expect (p ∷ ps) [] = none
expect (p ∷ ps) (c ∷ cs) = let rest = expect ps cs in if c == p then rest else none

expect-append : (p t : Text) → expect p (p ++ t) ≡ some t
unfolding expect
expect-append [] t = refl
expect-append (c ∷ p) t = let same : (c == c) ≡ true = ground arith in rw same (expect-append p t)

-- Three values behind one another, and what closes their line.
abbrev pub read_three : Text → Text → Option ((ℤ × ℤ × ℤ) × Text)
read_three end t = do
  x ← read_milli t
  t1 ← expect (codes ",") x.1
  y ← read_milli t1
  t2 ← expect (codes ",") y.1
  z ← read_milli t2
  t3 ← expect end z.1
  some ((x.0, y.0, z.0), t3)

-- The interrupt count and the values, read from a text of dev_read.
unfoldable pub read_message : Text → Option (ℕ × SampleFixed)
read_message t = do
  t1 ← expect (codes "IRQ count: ") t
  let n = read_digits 0 t1
  t2 ← expect (codes "\n") n.1
  a ← read_three (codes ", [g]\n") t2
  g ← read_three (codes ", [dps]\n") a.1
  c ← read_milli g.1
  some (
    n.0,
    record {
      ax_mg = a.0.0;
      ay_mg = a.0.1;
      az_mg = a.0.2;
      gx_mdps = g.0.0;
      gy_mdps = g.0.1;
      gz_mdps = g.0.2;
      temp_mdegc = c.0;
    },
  )

-- The values are 32-bit integers.
pub record IsWord (fx : SampleFixed) : Type 0 where
  pub ax : abs fx.ax_mg ≤ 2 ^ 31
  pub ay : abs fx.ay_mg ≤ 2 ^ 31
  pub az : abs fx.az_mg ≤ 2 ^ 31
  pub gx : abs fx.gx_mdps ≤ 2 ^ 31
  pub gy : abs fx.gy_mdps ≤ 2 ^ 31
  pub gz : abs fx.gz_mdps ≤ 2 ^ 31
  pub temp : abs fx.temp_mdegc ≤ 2 ^ 31

length-packed_text : (fx : SampleFixed) → IsWord fx → length (packed_text fx) ≤ 120
unfolding packed_text
length-packed_text fx h = omega (
  arith,
  length-append {0},
  length-milli_text (codes " ") fx.ax_mg (omega arith) h.ax,
  length-milli_text (codes " ") fx.ay_mg (omega arith) h.ay,
  length-milli_text (codes " ") fx.az_mg (omega arith) h.az,
  length-milli_text (codes " ") fx.gx_mdps (omega arith) h.gx,
  length-milli_text (codes " ") fx.gy_mdps (omega arith) h.gy,
  length-milli_text (codes " ") fx.gz_mdps (omega arith) h.gz,
  length-milli_text [] fx.temp_mdegc (omega arith) h.temp,
)

-- The line with the interrupt count.
abbrev pub count_line : ℕ → Text
count_line n = codes "IRQ count: " ++ (decimal n ++ codes "\n")

length-count_line : (n : ℕ) → n < 2 ^ 32 → length (count_line n) ≤ 22
length-count_line n h = omega (arith, length-append {0}, decimal-length n 9 (omega arith))

print_msg-whole :
    (line : Text) (r : Raw) (fx : SampleFixed)
    → length line ≤ 22
    → IsWord fx
    → line ++ print_msg (256 - length line) r fx false true ≡ line ++ packed_text fx
unfolding print_msg
print_msg-whole line r fx l w =
    ap (λ (t : Text). line ++ t)
      (take_whole (256 - length line - 0 - 1) (packed_text fx)
        (omega (arith, length-packed_text fx w)))

-- Nothing is cut off.
pub dev_read_text-whole :
    (n : ℕ) (s : SampleState)
    → s.valid ≡ true
    → n < 2 ^ 32
    → IsWord s.fixed
    → dev_read_text n s ≡ count_line n ++ packed_text s.fixed
unfolding dev_read_text
dev_read_text-whole n s v h w = rw v (
    ap (λ (l : Text). l ++ print_msg (256 - length l) s.raw s.fixed false true)
      (take_whole 255 (count_line n) (omega (arith, length-count_line n h)))
    ∙ print_msg-whole (count_line n) s.raw s.fixed (length-count_line n h) w)

pub read_three-append :
    (end : Text) (x y z : ℤ) (rest : Text)
    → Stops (end ++ rest)
    → read_three end (
        milli_text (codes " ") x
        ++ (codes ","
            ++ (milli_text (codes " ") y
                ++ (codes "," ++ (milli_text (codes " ") z ++ (end ++ rest))))))
      ≡ some ((x, y, z), rest)
unfolding expect
read_three-append end x y z rest s =
    let last = end ++ rest in
    let third = milli_text (codes " ") z ++ last in
    let second = milli_text (codes " ") y ++ (44 ∷ third) in
    rw (read_milli-milli_text (codes " ") x (44 ∷ second) (inl refl) refl) (
      rw (read_milli-milli_text (codes " ") y (44 ∷ third) (inl refl) refl) (
        rw (read_milli-milli_text (codes " ") z last (inl refl) s)
          (rw (expect-append end rest) refl)))

read_message-packed :
    (n : ℕ) (fx : SampleFixed) → read_message (count_line n ++ packed_text fx) ≡ some (n, fx)
unfolding read_message packed_text expect
read_message-packed n fx =
    let tail : Text = codes ", [" ++ (194 ∷ 176 ∷ codes "C]\n") in
    let temp = milli_text [] fx.temp_mdegc ++ tail in
    let gyro =
      milli_text (codes " ") fx.gx_mdps
      ++ (codes ","
          ++ (milli_text (codes " ") fx.gy_mdps
              ++ (codes ","
                  ++ (milli_text (codes " ") fx.gz_mdps ++ (codes ", [dps]\n" ++ temp))))) in
    let regroup : (decimal n ++ (10 ∷ [])) ++ packed_text fx ≡ decimal n ++ (10 ∷ packed_text fx) =
      append_assoc (decimal n) (10 ∷ []) (packed_text fx) in
    rw regroup (
      rw (read_digits-decimal n (10 ∷ packed_text fx) refl) (
        rw (read_three-append (codes ", [g]\n") fx.ax_mg fx.ay_mg fx.az_mg gyro refl) (
          rw (read_three-append (codes ", [dps]\n") fx.gx_mdps fx.gy_mdps fx.gz_mdps temp refl)
            (rw (read_milli-milli_text [] fx.temp_mdegc tail (inr refl) refl) refl))))

-- A reader's text of a valid sample, with a 32-bit interrupt count and 32-bit values, is shorter
-- than the buffer of dev_read, and reads back as the count and the seven values, to the thousandth
-- and with their signs.
pub dev_read_text-reads :
    (n : ℕ) (s : SampleState)
    → s.valid ≡ true
    → n < 2 ^ 32
    → IsWord s.fixed
    → (length (dev_read_text n s) < 256) × (read_message (dev_read_text n s) ≡ some (n, s.fixed))
dev_read_text-reads n s v h w =
    let whole = dev_read_text-whole n s v h w in
    (
      rw whole (
          omega (
            arith,
            length-append (count_line n) (packed_text s.fixed),
            length-count_line n h,
            length-packed_text s.fixed w,
          )),
      ap read_message whole ∙ read_message-packed n s.fixed,
    )
