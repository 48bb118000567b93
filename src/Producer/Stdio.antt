-- ===== src/Producer/Stdio.antt =====
-- What the producer asks of fgets and sscanf: they read back the lines that the driver of the
-- sensor prints.
use linux_device_drivers_hw.Base.{
  ℕ, ◌+◌, ◌^◌, ◌≤◌, ◌<◌, ◌≡◌, [], ◌∷◌, ◌++◌, append_assoc, none, some, ℤ, arith, if◌then◌else◌,
  length, length-append, All, All-append, Text, codes, decimal, decimal-All, pad3, is_neg, quot,
  rem, if_keeps,
}
use linux_device_drivers_hw.Mpu6050.Convert.{abs}
use linux_device_drivers_hw.Mpu6050.Message.{milli_text}
use linux_device_drivers_hw.Mpu6050.Message.Field.{length-milli_text}
use linux_device_drivers_hw.Producer.{Floats}
use linux_device_drivers_hw.Producer.Device.{Stdio}

-- A line: no control character.
abbrev pub IsLine : Text → Type 0
IsLine t = All (λ c. 31 < c) t

-- Three values as the driver prints them, and what follows.
abbrev pub three_text : ℤ → ℤ → ℤ → Text → Text
three_text x y z tail =
    milli_text (codes " ") x
    ++ (codes ","
        ++ (milli_text (codes " ") y ++ (codes "," ++ (milli_text (codes " ") z ++ tail))))

-- The C library, with the float nearest to a number of thousandths: fgets returns the line with its
-- newline if it fits with the zero behind it, and sscanf reads what printf has written for numbers
-- of 32 bits with a comma behind the last one.
pub record IsStdio {F : Floats} (S : Stdio F) (of_milli : ℤ → F.Float) : Type 0 where
  pub gets :
      (n : ℕ) (line rest : Text)
      → n < 2 ^ 31
      → IsLine line
      → length line + 2 ≤ n
      → S.fgets n (line ++ (10 ∷ rest)) ≡ some (line ++ (10 ∷ []), rest)
  pub three :
      (x y z : ℤ) (tail : Text)
      → abs x ≤ 2 ^ 31
      → abs y ≤ 2 ^ 31
      → abs z ≤ 2 ^ 31
      → S.scan_three (three_text x y z (codes "," ++ tail))
        ≡ some (of_milli x, of_milli y, of_milli z)
  pub one :
      (x : ℤ) (tail : Text)
      → abs x ≤ 2 ^ 31
      → S.scan_one (milli_text [] x ++ (codes "," ++ tail)) ≡ some (of_milli x)
  pub other : (t : Text) → S.scan_three (b'(' ∷ t) ≡ none

pub three_text-append :
    (x y z : ℤ) (tail rest : Text) → three_text x y z tail ++ rest ≡ three_text x y z (tail ++ rest)
three_text-append x y z tail rest = simp append_assoc

pub milli-IsLine : (plus : Text) (v : ℤ) → IsLine plus → IsLine (milli_text plus v)
unfolding milli_text
milli-IsLine plus v h =
    let P = λ (c : ℕ). 31 < c in
    let sign = if is_neg v then codes "-" else plus in
    let wh = abs (quot v 1000) in
    let fr = pad3 (abs (rem v 1000)) in
    All-append P sign (decimal wh ++ (codes "." ++ fr))
      (if_keeps IsLine (is_neg v) (λ _. (omega arith, tt)) (λ _. h))
      (All-append P (decimal wh) (codes "." ++ fr) (decimal-All wh)
        (omega arith, (omega arith, (omega arith, (omega arith, tt)))))

pub three-IsLine : (x y z : ℤ) (tail : Text) → IsLine tail → IsLine (three_text x y z tail)
three-IsLine x y z tail h =
    let P = λ (c : ℕ). 31 < c in
    let mx = milli_text (codes " ") x in
    let my = milli_text (codes " ") y in
    let mz = milli_text (codes " ") z in
    All-append P mx (codes "," ++ (my ++ (codes "," ++ (mz ++ tail))))
      (milli-IsLine (codes " ") x (omega arith, tt))
      (
        omega arith,
        All-append P my (codes "," ++ (mz ++ tail)) (milli-IsLine (codes " ") y (omega arith, tt))
            (omega arith, All-append P mz tail (milli-IsLine (codes " ") z (omega arith, tt)) h),
      )

pub length-three :
    (x y z : ℤ) (tail : Text)
    → abs x ≤ 2 ^ 31
    → abs y ≤ 2 ^ 31
    → abs z ≤ 2 ^ 31
    → length (three_text x y z tail) ≤ 38 + length tail
length-three x y z tail hx hy hz = omega (
  arith,
  length-append {0},
  length-milli_text (codes " ") x (omega arith) hx,
  length-milli_text (codes " ") y (omega arith) hy,
  length-milli_text (codes " ") z (omega arith) hz,
)
