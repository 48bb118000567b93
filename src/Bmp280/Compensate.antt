-- ===== src/Bmp280/Compensate.antt =====
-- compensate_data: the datasheet's integer arithmetic in 32 and 64 bits. A value that does not fit
-- wraps around, as the kernel has it compiled; a shift to the right of a negative value rounds
-- down.
pub mod Exact
use linux_device_drivers_hw.Base.{
  ℕ, ◌+◌, ◌-◌, ◌*◌, ◌/◌, ◌%◌, ◌^◌, Bool, true, false, ℤ, pos, negsuc, ◌+ℤ◌, ◌-ℤ◌, ◌*ℤ◌, quot,
  is_neg, is_zero, if◌then◌else◌, ltb, ◌≡◌, refl,
}
use linux_device_drivers_hw.Bmp280.{CalibData, RawData}

-- The low w bits of an integer, in two's complement.
unfoldable pub low_bits : ℕ → ℤ → ℕ
low_bits w (pos n) = n % 2 ^ w
low_bits w (negsuc n) = 2 ^ w - 1 - n % 2 ^ w

unfoldable signed_bits : ℕ → ℕ → ℤ
signed_bits w b = if ltb b (2 ^ (w - 1)) then pos b else negsuc (2 ^ w - 1 - b)

-- int32_t and int64_t
unfoldable pub int32 : ℤ → ℤ
unfolding low_bits signed_bits
int32 z = signed_bits 32 (low_bits 32 z)

unfoldable int64 : ℤ → ℤ
unfolding low_bits signed_bits
int64 z = signed_bits 64 (low_bits 64 z)

-- `>>`
unfoldable pub shr : ℤ → ℕ → ℤ
shr (pos n) k = pos (n / 2 ^ k)
shr (negsuc n) k = negsuc (n / 2 ^ k)

infixl 65 ◌+32◌ ◌-32◌ ◌+64◌ ◌-64◌
infixl 70 ◌*32◌ ◌*64◌
abbrev ◌+32◌ : ℤ → ℤ → ℤ
a +32 b = int32 (a +ℤ b)

abbrev ◌-32◌ : ℤ → ℤ → ℤ
a -32 b = int32 (a -ℤ b)

abbrev ◌*32◌ : ℤ → ℤ → ℤ
a *32 b = int32 (a *ℤ b)

abbrev ◌+64◌ : ℤ → ℤ → ℤ
a +64 b = int64 (a +ℤ b)

abbrev ◌-64◌ : ℤ → ℤ → ℤ
a -64 b = int64 (a -ℤ b)

abbrev ◌*64◌ : ℤ → ℤ → ℤ
a *64 b = int64 (a *ℤ b)

-- `/` of two integers, cut towards zero.
unfoldable div : ℤ → ℤ → ℤ
div a (pos d) = quot a d
div a (negsuc d) = pos 0 -ℤ quot a (d + 1)

-- The 20-bit values of the converter.
unfoldable pub adc_t : RawData → ℕ
adc_t r = r.temp_msb * 2 ^ 12 + r.temp_lsb * 2 ^ 4 + r.temp_xlsb

unfoldable pub adc_p : RawData → ℕ
adc_p r = r.press_msb * 2 ^ 12 + r.press_lsb * 2 ^ 4 + r.press_xlsb

-- bmp280_data_t
pub record Bmp280Data : Type 0 where
  pub temp : ℤ
  pub press : ℕ

-- t_fine of the temperature's converter value.
unfoldable pub fine : CalibData → ℕ → ℤ
unfolding int32 shr ◌+ℤ◌ ◌-ℤ◌ ◌*ℤ◌
fine k t =
    let var1 = shr ((pos (t / 8) -32 pos (k.dig_t1 * 2)) *32 k.dig_t2) 11 in
    let delta = pos (t / 16) -32 pos k.dig_t1 in
    let var2 = shr (shr (delta *32 delta) 12 *32 k.dig_t3) 14 in var1 +32 var2

-- The temperature in hundredths of a degree.
unfoldable pub temperature : ℤ → ℤ
unfolding int32 shr ◌+ℤ◌ ◌*ℤ◌
temperature t_fine = shr (t_fine *32 pos 5 +32 pos 128) 8

-- The divisor of the pressure, and the value that it is taken from.
unfoldable pub scale : CalibData → ℤ → ℤ
unfolding int64 shr ◌+ℤ◌ ◌-ℤ◌ ◌*ℤ◌
scale k t_fine =
    let v = t_fine -64 pos 128000 in
    let w = shr (v *64 v *64 k.dig_p3) 8 +64 v *64 k.dig_p2 *64 pos (2 ^ 12) in
    shr ((pos (2 ^ 47) +64 w) *64 pos k.dig_p1) 33

unfoldable pub offset : CalibData → ℤ → ℤ
unfolding int64 ◌+ℤ◌ ◌-ℤ◌ ◌*ℤ◌
offset k t_fine =
    let v = t_fine -64 pos 128000 in
    let w = v *64 v *64 k.dig_p6 in
    w +64 v *64 k.dig_p5 *64 pos (2 ^ 17) +64 k.dig_p4 *64 pos (2 ^ 35)

-- The pressure in 1/256 Pa by a divisor that is not zero.
unfoldable pub pressure : CalibData → ℕ → ℤ → ℤ → ℕ
unfolding int64 low_bits shr div ◌+ℤ◌ ◌-ℤ◌ ◌*ℤ◌
pressure k p varp1 varp2 =
    let p0 = pos 1048576 -64 pos p in
    let p1 = int64 (div ((p0 *64 pos (2 ^ 31) -64 varp2) *64 pos 3125) varp1) in
    let v1 = shr (k.dig_p9 *64 shr p1 13 *64 shr p1 13) 25 in
    let v2 = shr (k.dig_p8 *64 p1) 19 in
    let p2 = shr (p1 +64 v1 +64 v2) 8 +64 k.dig_p7 *64 pos (2 ^ 4) in low_bits 32 p2

-- compensate_data
unfoldable pub compensate_data : CalibData → RawData → Bmp280Data
unfolding fine temperature scale offset pressure adc_t adc_p
compensate_data k raw =
    let t_fine = fine k (adc_t raw) in
    let varp1 = scale k t_fine in
    record {
      temp = temperature t_fine;
      press = if is_zero varp1 then 0 else pressure k (adc_p raw) varp1 (offset k t_fine);
    }
