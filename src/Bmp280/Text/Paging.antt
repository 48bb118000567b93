-- ===== src/Bmp280/Text/Paging.antt =====
-- The text of dev_read fits its array, and comes whole over several calls.
use linux_device_drivers_hw.Base.{
  ℕ, ◌+◌, ◌-◌, ◌*◌, ◌/◌, ◌%◌, ◌^◌, ◌≤◌, ◌<◌, ◌≡◌, refl, sym, inl, inr, ap, ap₂, ◌∙◌, true, List, [],
  ◌∷◌, ◌++◌, ℤ, pos, negsuc, is_zero, quot, rem, arith, if◌then◌else◌, if_keeps, Bool, Bool-cases,
  false, ltb, leb, length, length-append, take, drop, take_whole, take-add, drop-add, Text,
  decimal-length, signed_decimal, min,
}
use linux_device_drivers_hw.Mpu6050.Convert.{abs}
use linux_device_drivers_hw.Bmp280.{Smbus, Bmp280, CalibData, RawData, read_raw_data}
use linux_device_drivers_hw.Bmp280.Compensate.{
  compensate_data, fine, temperature, scale, pressure, int32, low_bits, shr, adc_t,
}
use linux_device_drivers_hw.Bmp280.Text.{padded, pad2, reading_text, read_page, dev_read}

int32_bound : (z : ℤ) → abs (int32 z) ≤ 2 ^ 31
unfolding int32
int32_bound (pos n) = ground arith
int32_bound (negsuc n) = ground arith

shr8_bound : (z : ℤ) → abs z ≤ 2 ^ 31 → abs (shr z 8) ≤ 2 ^ 23
unfolding shr
shr8_bound (pos n) h = omega arith
shr8_bound (negsuc n) h = omega arith

temperature_bound : (z : ℤ) → abs (temperature z) ≤ 2 ^ 23
unfolding temperature
temperature_bound z = shr8_bound _ (int32_bound _)

low_bits_bound : (z : ℤ) → low_bits 32 z < 2 ^ 32
unfolding low_bits
low_bits_bound (pos n) = omega arith
low_bits_bound (negsuc n) = omega arith

compensated_bounds :
    (k : CalibData) (raw : RawData)
    → let o = compensate_data k raw in (abs o.temp ≤ 2 ^ 23) × (o.press < 2 ^ 32)
unfolding compensate_data pressure
compensated_bounds k raw = (
  temperature_bound (fine k (adc_t raw)),
  if_keeps (λ (n : ℕ). n < 2 ^ 32) (is_zero (scale k (fine k (adc_t raw)))) (λ _. omega arith)
      (λ _. low_bits_bound _),
)

length-signed_decimal : (z : ℤ) → abs z < 100000 → length (signed_decimal z) ≤ 6
unfolding signed_decimal
length-signed_decimal (pos n) h = omega (arith, decimal-length n 4 (omega arith))
length-signed_decimal (negsuc n) h = omega (arith, decimal-length (n + 1) 4 (omega arith))

length-pad2 : (z : ℤ) → abs z < 100 → length (pad2 z) ≤ 3
unfolding pad2 padded
length-pad2 (pos n) h = ground (arith, decimal-length n 1 (omega arith))
length-pad2 (negsuc n) h = omega (arith, decimal-length (n + 1) 1 (omega arith))

rem_bound : (z : ℤ) → abs (rem z 100) < 100
rem_bound (pos n) = omega arith
rem_bound (negsuc n) = ground arith

quot_bound : (z : ℤ) → abs z ≤ 2 ^ 23 → abs (quot z 100) < 100000
quot_bound (pos n) h = omega arith
quot_bound (negsuc n) h = ground arith

-- For every calibration and reading, the text is shorter than the array of dev_read.
text_fits : (k : CalibData) (raw : RawData) → length (reading_text (compensate_data k raw)) < 64
unfolding reading_text
text_fits k raw =
    let o = compensate_data k raw in
    let (temp, press) = compensated_bounds k raw in
    omega (
      arith,
      length-append {0},
      length-signed_decimal (quot o.temp 100) (quot_bound o.temp temp),
      length-pad2 (rem o.temp 100) (rem_bound o.temp),
      decimal-length (o.press / 25600) 5 (omega arith),
      length-pad2 (pos (o.press % 25600 * 100 / 25600)) (omega arith),
    )

-- A series of calls, each with its count and whether copy_to_user succeeds, from where the one before
-- has left the file.
unfoldable pub dev_reads : Smbus → Bmp280 → List (ℕ × Bool) → ℕ → ℕ × Text
dev_reads bus d [] ppos = (ppos, [])
dev_reads bus d ((count, copied) ∷ calls) ppos =
    let (ret, ppos', bytes) = dev_read bus d count copied ppos in
    let (last, rest) = dev_reads bus d calls ppos' in (last, bytes ++ rest)

-- The counts of the calls that are copied.
abbrev pub asked : List (ℕ × Bool) → ℕ
asked [] = 0
asked ((count, copied) ∷ calls) = if copied then count + asked calls else asked calls

-- What one call returns of a text within the array.
read_page_lem :
    (t : Text) (count ppos : ℕ)
    → length t < 64
    → ppos ≤ length t
    → let n = min count (length t - ppos) in
      read_page t count true ppos ≡ (pos n, ppos + n, take n (drop ppos t))
unfolding read_page
read_page_lem t count ppos h k = elim (Bool-cases (leb (length t) ppos)) [
  | inl end ↦
      let none_left : min count (length t - ppos) ≡ 0 = ground arith in
      let same : ppos ≡ ppos + 0 = omega arith in
      rw (end, none_left) (ap (λ (p : ℕ). (pos 0, p, take 0 t)) same)
  | inr more ↦
      let least : (if ltb (length t - ppos) count then length t - ppos else count)
          ≡ min count (length t - ppos) =
        ground arith in
      rw (more, take_whole 63 t (omega arith))
        (ap (λ (n : ℕ). (pos n, ppos + n, take n (drop ppos t))) least)
]

-- A call that is not copied gives nothing and leaves the file where it is.
read_page_fails :
    (t : Text) (count ppos : ℕ)
    → let (ret, ppos', bytes) = read_page t count false ppos in (ppos' ≡ ppos) × (bytes ≡ [])
unfolding read_page
read_page_fails t count ppos = elim (Bool-cases (leb (length t) ppos)) [
  | inl end ↦ rw end (refl, refl)
  | inr more ↦ rw more (refl, refl)
]

module _ (bus : Smbus) (d : Bmp280) (c : d.client ≡ true) (s : (read_raw_data bus).0 ≡ pos 0) where
  abbrev text : Text
  text = reading_text (compensate_data d.calib_data (read_raw_data bus).1)

  dev_read_lem :
      (count : ℕ) (copied : Bool) (ppos : ℕ)
      → dev_read bus d count copied ppos ≡ read_page text count copied ppos
  unfolding dev_read
  dev_read_lem count copied ppos = rw (c, s) refl

  dev_reads_lem :
      (calls : List (ℕ × Bool)) (ppos : ℕ)
      → ppos ≤ length text
      → let n = min (asked calls) (length text - ppos) in
        dev_reads bus d calls ppos ≡ (ppos + n, take n (drop ppos text))
  unfolding dev_reads
  dev_reads_lem [] ppos h =
      let e : min 0 (length text - ppos) ≡ 0 = ground arith in
      let same : ppos ≡ ppos + 0 = omega arith in rw e (ap (λ (p : ℕ). (p, take 0 text)) same)
  dev_reads_lem ((count, false) ∷ calls) ppos h =
      let (still, none) = read_page_fails text count ppos in
      rw (dev_read_lem count false ppos) (rw (still, none) (dev_reads_lem calls ppos h))
  dev_reads_lem ((count, true) ∷ calls) ppos h =
      let left = length text - ppos in
      let k = min count left in
      let m = min (asked calls) (length text - (ppos + k)) in
      let parts : k + m ≡ min (count + asked calls) left = ground arith in
      let at_end : ppos + k + m ≡ ppos + (k + m) = omega arith in
      let bytes : take k (drop ppos text) ++ take m (drop (ppos + k) text)
          ≡ take (k + m) (drop ppos text) =
        ap (λ (l : Text). take k (drop ppos text) ++ take m l) (drop-add ppos k text)
        ∙ sym (take-add k m (drop ppos text)) in
      rw
        (dev_read_lem count true ppos
          ∙ read_page_lem text count ppos (text_fits d.calib_data (read_raw_data bus).1) h)
        (rw (dev_reads_lem calls (ppos + k) (ground arith)) (
          ap₂ (λ (p : ℕ) (l : Text). (p, l)) at_end bytes
          ∙ ap (λ (n : ℕ). (ppos + n, take n (drop ppos text))) parts))

  dev_read_end :
      (count ppos : ℕ) (copied : Bool)
      → length text ≤ ppos
      → dev_read bus d count copied ppos ≡ (pos 0, ppos, [])
  unfolding dev_read read_page
  dev_read_end count ppos copied h =
      let e : leb (length text) ppos ≡ true = ground arith in rw (c, s, e) refl

-- While the driver has its client and the sensor gives the same complete reading, the calls of a
-- series, whatever their counts and wherever copy_to_user fails, return the text of the reading in
-- order, without a gap and without a repetition, from its beginning up to the sum of the counts of
-- the calls that are copied or its end; and any call at its end or behind it returns 0 and no bytes,
-- and leaves the file where it is.
pub dev_reads_deliver :
    (bus : Smbus) (d : Bmp280) (calls : List (ℕ × Bool)) (count behind : ℕ) (copied : Bool)
    → d.client ≡ true
    → (read_raw_data bus).0 ≡ pos 0
    → let text = reading_text (compensate_data d.calib_data (read_raw_data bus).1) in
      let n = min (asked calls) (length text) in
      (dev_reads bus d calls 0 ≡ (n, take n text))
      × (dev_read bus d count copied (length text + behind) ≡ (pos 0, length text + behind, []))
dev_reads_deliver bus d calls count behind copied c s =
    let t = reading_text (compensate_data d.calib_data (read_raw_data bus).1) in
    let whole : length t - 0 ≡ length t = omega arith in
    let from_start : 0 + min (asked calls) (length t) ≡ min (asked calls) (length t) =
      omega arith in
    (
      dev_reads_lem bus d c s calls 0 (omega arith)
          ∙ ap (λ (l : ℕ). (0 + min (asked calls) l, take (min (asked calls) l) t)) whole
          ∙ ap (λ (p : ℕ). (p, take (min (asked calls) (length t)) t)) from_start,
      dev_read_end bus d c s count (length t + behind) copied (omega arith),
    )
