-- ===== src/Bmp280/Compensate/Exact.antt =====
-- The temperature is the datasheet's formula: nothing wraps around.
use linux_device_drivers_hw.Base.{
  ℕ, ◌+◌, ◌*◌, ◌/◌, ◌^◌, ◌≤◌, ◌<◌, ◌≡◌, [], ◌∷◌, ap, ap₂, ◌∙◌, ℤ, pos, negsuc, ◌+ℤ◌, ◌-ℤ◌, ◌*ℤ◌,
  arith,
}
use native.Mathlib.Nat.{mul-le-mul}
use linux_device_drivers_hw.Mpu6050.Convert.{abs, IsShort}
use linux_device_drivers_hw.Bmp280.{CalibData, parse_raw}
use linux_device_drivers_hw.Bmp280.Compensate.{int32, shr, adc_t, adc_p, fine, temperature}

int32_id : (z : ℤ) → abs z < 2 ^ 31 → int32 z ≡ z
unfolding int32
int32_id (pos n) h = ground arith
int32_id (negsuc n) h = ground arith

abs-add : (a b : ℤ) → abs (a +ℤ b) ≤ abs a + abs b
unfolding ◌+ℤ◌
abs-add a b = ground arith

abs-sub : (a b : ℤ) → abs (a -ℤ b) ≤ abs a + abs b
unfolding ◌-ℤ◌
abs-sub a b = ground arith

abs-mul : (a b : ℤ) → abs (a *ℤ b) ≤ abs a * abs b
unfolding ◌*ℤ◌
abs-mul (pos a) (pos b) = ground arith
abs-mul (pos a) (negsuc b) = ground arith
abs-mul (negsuc a) (pos b) = ground arith
abs-mul (negsuc a) (negsuc b) = ground arith

-- The formula of the datasheet, over the integers.
unfoldable pub exact_fine : CalibData → ℕ → ℤ
unfolding shr ◌+ℤ◌ ◌-ℤ◌ ◌*ℤ◌
exact_fine k t =
    let var1 = shr ((pos (t / 8) -ℤ pos (k.dig_t1 * 2)) *ℤ k.dig_t2) 11 in
    let delta = pos (t / 16) -ℤ pos k.dig_t1 in
    let var2 = shr (shr (delta *ℤ delta) 12 *ℤ k.dig_t3) 14 in var1 +ℤ var2

unfoldable pub exact_temperature : ℤ → ℤ
unfolding shr ◌+ℤ◌ ◌*ℤ◌
exact_temperature t_fine = shr (t_fine *ℤ pos 5 +ℤ pos 128) 8

abs-shr11 : (z : ℤ) → abs (shr z 11) * 2 ^ 11 ≤ abs z + 2 ^ 11
unfolding shr
abs-shr11 (pos n) = omega arith
abs-shr11 (negsuc n) = omega arith

abs-shr12 : (z : ℤ) → abs (shr z 12) * 2 ^ 12 ≤ abs z + 2 ^ 12
unfolding shr
abs-shr12 (pos n) = omega arith
abs-shr12 (negsuc n) = omega arith

abs-shr14 : (z : ℤ) → abs (shr z 14) * 2 ^ 14 ≤ abs z + 2 ^ 14
unfolding shr
abs-shr14 (pos n) = omega arith
abs-shr14 (negsuc n) = omega arith

-- A product within bounds does not wrap around.
mul_exact :
    (a b : ℤ) (m n : ℕ)
    → abs a ≤ m
    → abs b ≤ n
    → m * n < 2 ^ 31
    → (int32 (a *ℤ b) ≡ a *ℤ b) × (abs (a *ℤ b) ≤ m * n)
mul_exact a b m n h k l =
    let product : abs a * abs b ≤ m * n = mul-le-mul h k in
    let bound : abs (a *ℤ b) ≤ m * n = omega (arith, abs-mul a b) in
    (int32_id (a *ℤ b) (omega arith), bound)

-- The converter's value and the calibration are within their widths, and the temperature is at most
-- 16383 steps of the converter from the one that dig_T1 stands for.
pub record IsNear (k : CalibData) (t : ℕ) : Type 0 where
  pub value : t < 2 ^ 20
  pub t1 : k.dig_t1 < 2 ^ 16
  pub t2 : IsShort k.dig_t2
  pub t3 : IsShort k.dig_t3
  pub near : abs (pos (t / 16) -ℤ pos k.dig_t1) ≤ 16383

module _ (k : CalibData) (t : ℕ) (h : IsNear k t) where
  abbrev first : ℤ
  first = pos (t / 8) -ℤ pos (k.dig_t1 * 2)

  abbrev delta : ℤ
  delta = pos (t / 16) -ℤ pos k.dig_t1

  first_bound : abs first ≤ 32767
  unfolding ◌-ℤ◌
  first_bound = ground (arith, h.near)

  short_bound : (z : ℤ) → IsShort z → abs z ≤ 32768
  short_bound z s = ground arith

  var1_exact :
      (int32 (int32 first *ℤ k.dig_t2) ≡ first *ℤ k.dig_t2)
      × (abs (first *ℤ k.dig_t2) ≤ 32767 * 32768)
  var1_exact =
      let (product, bound) =
        mul_exact first k.dig_t2 32767 32768 first_bound (short_bound k.dig_t2 h.t2)
          (omega arith) in
      (
        ap (λ (z : ℤ). int32 (z *ℤ k.dig_t2)) (int32_id first (omega (arith, first_bound)))
            ∙ product,
        bound,
      )

  square_exact :
      (int32 (int32 delta *ℤ int32 delta) ≡ delta *ℤ delta) × (abs (delta *ℤ delta) ≤ 16383 * 16383)
  square_exact =
      let (product, bound) = mul_exact delta delta 16383 16383 h.near h.near (omega arith) in
      (ap (λ (z : ℤ). int32 (z *ℤ z)) (int32_id delta (omega (arith, h.near))) ∙ product, bound)

  var2_exact :
      (int32 (shr (delta *ℤ delta) 12 *ℤ k.dig_t3) ≡ shr (delta *ℤ delta) 12 *ℤ k.dig_t3)
      × (abs (shr (delta *ℤ delta) 12 *ℤ k.dig_t3) ≤ 65530 * 32768)
  var2_exact =
      mul_exact (shr (delta *ℤ delta) 12) k.dig_t3 65530 32768
        (omega (arith, abs-shr12 (delta *ℤ delta), square_exact.1)) (short_bound k.dig_t3 h.t3)
        (omega arith)

  fine_exact : (fine k t ≡ exact_fine k t) × (abs (exact_fine k t) ≤ 700000)
  unfolding fine exact_fine
  fine_exact =
      let v1 = shr (first *ℤ k.dig_t2) 11 in
      let v2 = shr (shr (delta *ℤ delta) 12 *ℤ k.dig_t3) 14 in
      let bound : abs (v1 +ℤ v2) ≤ 700000 = omega (
        arith,
        abs-add v1 v2,
        abs-shr11 (first *ℤ k.dig_t2),
        abs-shr14 (shr (delta *ℤ delta) 12 *ℤ k.dig_t3),
        var1_exact.1,
        var2_exact.1,
      ) in
      (
        ap₂ (λ (x y : ℤ). int32 (x +ℤ y)) (ap (λ (z : ℤ). shr z 11) var1_exact.0)
              (ap (λ (z : ℤ). shr z 14)
                (ap (λ (z : ℤ). int32 (shr z 12 *ℤ k.dig_t3)) square_exact.0 ∙ var2_exact.0))
            ∙ int32_id (v1 +ℤ v2) (omega (arith, bound)),
        bound,
      )

-- When the converter's value has 20 bits, the calibration 16, and the temperature is at most 16383
-- steps from the one of dig_T1, the temperature that compensate_data computes in 32 bits is the one
-- of the datasheet's formula over the integers.
pub temperature_exact :
    (k : CalibData) (t : ℕ)
    → IsNear k t
    → temperature (fine k t) ≡ exact_temperature (exact_fine k t)
unfolding temperature exact_temperature
temperature_exact k t h =
    let (same, bound) = fine_exact k t h in
    let z = exact_fine k t in
    let (product, five) = mul_exact z (pos 5) 700000 5 bound (omega arith) (omega arith) in
    ap (λ (y : ℤ). shr (int32 (int32 (y *ℤ pos 5) +ℤ pos 128)) 8) same
    ∙ ap (λ (y : ℤ). shr (int32 (y +ℤ pos 128)) 8) product
    ∙ ap (λ (y : ℤ). shr y 8)
        (int32_id (z *ℤ pos 5 +ℤ pos 128) (omega (arith, abs-add (z *ℤ pos 5) (pos 128), five)))

-- From six bytes, the two values are the 20-bit numbers of their three bytes, high byte first.
adc_joins :
    (p0 p1 p2 t0 t1 t2 : ℕ)
    → p0 < 256
    → p1 < 256
    → p2 < 256
    → t0 < 256
    → t1 < 256
    → t2 < 256
    → let r = parse_raw (p0 ∷ p1 ∷ p2 ∷ t0 ∷ t1 ∷ t2 ∷ []) in
      (adc_p r ≡ (p0 * 65536 + p1 * 256 + p2) / 16)
      × (adc_t r ≡ (t0 * 65536 + t1 * 256 + t2) / 16)
      × (adc_p r < 2 ^ 20)
      × (adc_t r < 2 ^ 20)
unfolding parse_raw adc_p adc_t
adc_joins p0 p1 p2 t0 t1 t2 a b c d e f = omega arith
