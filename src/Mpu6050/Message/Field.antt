-- ===== src/Mpu6050/Message/Field.antt =====
-- One printed value reads back.
use linux_device_drivers_hw.Base.{
  ℕ, suc, ◌+◌, ◌*◌, ◌/◌, ◌%◌, ◌^◌, ◌≤◌, ◌<◌, ◌≡◌, ◌⊎◌, inl, inr, refl, ap, ◌∙◌, Bool, true, false,
  [], ◌∷◌, ◌++◌, append_assoc, Option, none, some, ℤ, pos, negsuc, rem, sub_ℕ, arith, if◌then◌else◌,
  ◌==◌, length, length-append, Text, codes, decimal, decimal-length, decimal-head, pad3,
  read_digits, Stops, read_digits-decimal, read_digits-pad3,
}
use linux_device_drivers_hw.Mpu6050.Convert.{abs}
use linux_device_drivers_hw.Mpu6050.Message.{milli_text}

-- A sign, or a blank in its place, or neither.
abbrev read_sign : Text → Bool × Text
read_sign [] = (false, [])
read_sign (c ∷ cs) =
    if c == 45 then (true, cs) else if c == 32 then (false, cs) else (false, c ∷ cs)

abbrev with_sign : Bool → ℕ → ℤ
with_sign negative n = if negative then sub_ℕ 0 n else pos n

-- The digits behind the point, and the value in thousandths.
abbrev read_thousandths : Bool → ℕ × Text → Option (ℤ × Text)
read_thousandths negative (wh, []) = none
read_thousandths negative (wh, c ∷ cs) =
    let (fr, rest) = read_digits 0 cs in
    if c == 46 then some (with_sign negative (wh * 1000 + fr), rest) else none

-- A value with three decimals, read from the front of a text, in thousandths.
unfoldable pub read_milli : Text → Option (ℤ × Text)
read_milli t =
    let (negative, digits) = read_sign t in read_thousandths negative (read_digits 0 digits)

-- The digits of a value in front of a stop.
abbrev digits : ℕ → ℕ → Text → Text
digits wh fr rest = decimal wh ++ (46 ∷ (pad3 fr ++ rest))

read_digits-digits :
    (negative : Bool) (wh fr : ℕ) (rest : Text)
    → fr < 1000
    → Stops rest
    → read_thousandths negative (read_digits 0 (digits wh fr rest))
      ≡ some (with_sign negative (wh * 1000 + fr), rest)
read_digits-digits negative wh fr rest h s =
    ap (read_thousandths negative) (read_digits-decimal wh (46 ∷ (pad3 fr ++ rest)) refl)
    ∙ ap (λ (r : ℕ × Text). some (with_sign negative (wh * 1000 + r.0), r.1))
        (read_digits-pad3 fr rest h s)

read_sign-digits :
    (wh fr : ℕ) (rest : Text) → read_sign (digits wh fr rest) ≡ (false, digits wh fr rest)
read_sign-digits wh fr rest =
    let (d, ds, e, small) = decimal-head wh in
    let minus : ((48 + d) == 45) ≡ false = ground arith in
    let blank : ((48 + d) == 32) ≡ false = ground arith in rw e (rw (minus, blank) refl)

-- The value in front of its sign.
read_milli-digits :
    (wh fr : ℕ) (rest : Text)
    → fr < 1000
    → Stops rest
    → (read_milli (45 ∷ digits wh fr rest) ≡ some (with_sign true (wh * 1000 + fr), rest))
      × (read_milli (32 ∷ digits wh fr rest) ≡ some (pos (wh * 1000 + fr), rest))
      × (read_milli (digits wh fr rest) ≡ some (pos (wh * 1000 + fr), rest))
unfolding read_milli
read_milli-digits wh fr rest h s = (
  read_digits-digits true wh fr rest h s,
  read_digits-digits false wh fr rest h s,
  ap (λ (r : Bool × Text). read_thousandths r.0 (read_digits 0 r.1)) (read_sign-digits wh fr rest)
      ∙ read_digits-digits false wh fr rest h s,
)

-- The text of a value, by its sign.
milli_text-pos :
    (plus : Text) (n : ℕ) (rest : Text)
    → milli_text plus (pos n) ++ rest ≡ plus ++ digits (n / 1000) (n % 1000) rest
unfolding milli_text
milli_text-pos plus n rest =
    let wh : abs (pos (n / 1000)) ≡ n / 1000 = omega arith in
    let fr : abs (pos (n % 1000)) ≡ n % 1000 = omega arith in rw (wh, fr) (simp append_assoc)

milli_text-neg :
    (plus : Text) (n : ℕ) (rest : Text)
    → milli_text plus (negsuc n) ++ rest ≡ 45 ∷ digits (suc n / 1000) (suc n % 1000) rest
unfolding milli_text
milli_text-neg plus n rest =
    let wh : abs (sub_ℕ 0 (suc n / 1000)) ≡ suc n / 1000 = ground arith in
    let fr : abs (sub_ℕ 0 (suc n % 1000)) ≡ suc n % 1000 = ground arith in
    rw (wh, fr) (simp append_assoc)

-- What is printed for a value, with a blank or nothing for a sign that is not there, reads back as
-- it.
pub read_milli-milli_text :
    (plus : Text) (v : ℤ) (rest : Text)
    → (plus ≡ codes " ") ⊎ (plus ≡ [])
    → Stops rest
    → read_milli (milli_text plus v ++ rest) ≡ some (v, rest)
read_milli-milli_text plus (negsuc n) rest p s =
    let value : with_sign true (suc n / 1000 * 1000 + suc n % 1000) ≡ negsuc n = ground arith in
    ap read_milli (milli_text-neg plus n rest)
    ∙ (read_milli-digits (suc n / 1000) (suc n % 1000) rest (omega arith) s).0
    ∙ ap (λ (z : ℤ). some (z, rest)) value
read_milli-milli_text plus (pos n) rest p s =
    let value : n / 1000 * 1000 + n % 1000 ≡ n = omega arith in
    let (_, blank, bare) = read_milli-digits (n / 1000) (n % 1000) rest (omega arith) s in
    ap read_milli (milli_text-pos plus n rest) ∙ elim p [
      | inl e ↦
          ap (λ (q : Text). read_milli (q ++ digits (n / 1000) (n % 1000) rest)) e
          ∙ (blank ∙ ap (λ (k : ℕ). some (pos k, rest)) value)
      | inr e ↦
          ap (λ (q : Text). read_milli (q ++ digits (n / 1000) (n % 1000) rest)) e
          ∙ (bare ∙ ap (λ (k : ℕ). some (pos k, rest)) value)
    ]

-- A 32-bit value takes at most twelve characters.
pub length-milli_text :
    (plus : Text) (v : ℤ) → length plus ≤ 1 → abs v ≤ 2 ^ 31 → length (milli_text plus v) ≤ 12
unfolding milli_text
length-milli_text plus (pos n) p h =
    let wh : abs (pos (n / 1000)) ≡ n / 1000 = omega arith in
    rw wh (omega (arith, length-append {0}, decimal-length (n / 1000) 6 (omega arith)))
length-milli_text plus (negsuc n) p h =
    let wh : abs (sub_ℕ 0 (suc n / 1000)) ≡ suc n / 1000 = ground arith in
    rw wh (
      omega (
        arith,
        length-append (decimal (suc n / 1000)) (46 ∷ pad3 (abs (rem (negsuc n) 1000))),
        decimal-length (suc n / 1000) 6 (omega arith),
      ))
