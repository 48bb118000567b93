-- ===== src/Base/Printing.antt =====
-- Text as lists of code points: what the printf family writes for %d, %u and padding, and the
-- reading of numbers back from it.
use Prim.Native.Char.{code}
use Prim.Native.String.{String}
use Prim.Native.Nat.{ℕ, zero, suc, ◌+◌, ◌-◌, ◌*◌, ◌/◌, ◌%◌, ◌≤◌, ◌<◌}
use mathlib.Core.Path.{◌≡◌, refl, ap, ◌∙◌}
use mathlib.Core.Bool.{Bool, true, false, ◌&&◌}
use mathlib.Core.Logic.{inl, inr}
use mathlib.Core.List.{List, [], ◌∷◌, ◌++◌}
use native.Mathlib.Omega.{arith}
use linux_device_drivers_hw.Base.Tests.{ltb, leb, if◌then◌else◌, Bool-cases}
use linux_device_drivers_hw.Base.Int.{ℤ, pos, negsuc}
use linux_device_drivers_hw.Base.Lists.{length, take, All}

abbrev pub Text : Type 0
Text = List ℕ

-- The code points of a text; the bytes, if it is ASCII.
abbrev pub codes : String → Text
codes String.[] = []
codes (String.◌∷◌ c s) = code c ∷ codes s

-- The digits of a number in front of a text, on fuel.
unfoldable decimal_onto : ℕ → ℕ → Text → Text
decimal_onto zero n acc = acc
decimal_onto (suc fuel) n acc =
    let rest = decimal_onto fuel (n / 10) ((48 + n % 10) ∷ acc) in
    if ltb n 10 then (48 + n) ∷ acc else rest

-- `%u`
unfoldable pub decimal : ℕ → Text
unfolding decimal_onto
decimal n = decimal_onto (suc n) n []

-- `%d`
unfoldable pub signed_decimal : ℤ → Text
signed_decimal (pos n) = decimal n
signed_decimal (negsuc n) = codes "-" ++ decimal (n + 1)

-- The number that a run of digits continues.
abbrev value_from : ℕ → Text → ℕ
value_from v [] = v
value_from v (d ∷ ds) = value_from (v * 10 + (d - 48)) ds

decimal_onto-value :
    (fuel n : ℕ) (acc : Text) → n < fuel → value_from 0 (decimal_onto fuel n acc) ≡ value_from n acc
unfolding decimal_onto
decimal_onto-value zero n acc h = absurd (omega arith)
decimal_onto-value (suc fuel) n acc h = elim (Bool-cases (ltb n 10)) [
  | inl small ↦
      let e : 0 * 10 + (48 + n - 48) ≡ n = omega arith in rw small (ap (λ v. value_from v acc) e)
  | inr large ↦
      let lt : n / 10 < fuel = ground arith in
      let e : n / 10 * 10 + (48 + n % 10 - 48) ≡ n = omega arith in
      rw large
        (decimal_onto-value fuel (n / 10) ((48 + n % 10) ∷ acc) lt ∙ ap (λ v. value_from v acc) e)
]

-- The digits of a number read back as the number.
decimal-value : (n : ℕ) → value_from 0 (decimal n) ≡ n
unfolding decimal
decimal-value n = decimal_onto-value (suc n) n [] (omega arith)

-- A digit is above the control characters.
decimal_onto-All :
    (fuel n : ℕ) (acc : Text) → All (λ c. 31 < c) acc → All (λ c. 31 < c) (decimal_onto fuel n acc)
unfolding decimal_onto
decimal_onto-All zero n acc h = h
decimal_onto-All (suc fuel) n acc h = elim (Bool-cases (ltb n 10)) [
  | inl small ↦ rw small (omega arith, h)
  | inr large ↦ rw large (decimal_onto-All fuel (n / 10) ((48 + n % 10) ∷ acc) (omega arith, h))
]

pub decimal-All : (n : ℕ) → All (λ c. 31 < c) (decimal n)
unfolding decimal
decimal-All n = decimal_onto-All (suc n) n [] tt

-- 10 to a power.
abbrev pub power_of_ten : ℕ → ℕ
power_of_ten zero = 1
power_of_ten (suc k) = 10 * power_of_ten k

-- Enough digits for a number below a power of ten.
decimal_onto-length :
    (fuel n k : ℕ) (acc : Text)
    → n < fuel
    → n < power_of_ten (suc k)
    → length (decimal_onto fuel n acc) ≤ suc k + length acc
unfolding decimal_onto
decimal_onto-length zero n k acc h b = absurd (omega arith)
decimal_onto-length (suc fuel) n zero acc h b = ground arith
decimal_onto-length (suc fuel) n (suc k) acc h b = elim (Bool-cases (ltb n 10)) [
  | inl small ↦ rw small (omega arith)
  | inr large ↦
      let lt : n / 10 < fuel = ground arith in
      let q : n / 10 < power_of_ten (suc k) = omega arith in
      rw large (omega (arith, decimal_onto-length fuel (n / 10) k ((48 + n % 10) ∷ acc) lt q))
]

pub decimal-length : (n k : ℕ) → n < power_of_ten (suc k) → length (decimal n) ≤ suc k
unfolding decimal
decimal-length n k h = omega (arith, decimal_onto-length (suc n) n k [] (omega arith) h)

-- A printed number starts with a digit.
decimal_onto-head :
    (fuel n : ℕ) (acc : Text)
    → n < fuel
    → (d : ℕ) × (ds : Text) × (decimal_onto fuel n acc ≡ (48 + d) ∷ ds) × (d < 10)
unfolding decimal_onto
decimal_onto-head zero n acc h = absurd (omega arith)
decimal_onto-head (suc fuel) n acc h = elim (Bool-cases (ltb n 10)) [
  | inl small ↦ (n, acc, rw small refl, ground arith)
  | inr large ↦
      let lt : n / 10 < fuel = ground arith in
      rw large (decimal_onto-head fuel (n / 10) ((48 + n % 10) ∷ acc) lt)
]

pub decimal-head : (n : ℕ) → (d : ℕ) × (ds : Text) × (decimal n ≡ (48 + d) ∷ ds) × (d < 10)
unfolding decimal
decimal-head n = decimal_onto-head (suc n) n [] (omega arith)

-- `%03d` of a number below 1000, and `%02d` of one below 100
abbrev pub pad3 : ℕ → Text
pad3 n = (48 + n / 100) ∷ (48 + n / 10 % 10) ∷ (48 + n % 10) ∷ []

-- snprintf and scnprintf into a buffer of `size` bytes: what fits in front of the terminating zero.
abbrev pub fitted : ℕ → Text → Text
fitted size t = take (size - 1) t

-- A run of digits, read off the front of a text.
abbrev is_digit : ℕ → Bool
is_digit c = leb 48 c && leb c 57

unfoldable pub read_digits : ℕ → Text → ℕ × Text
read_digits v [] = (v, [])
read_digits v (c ∷ cs) = if is_digit c then read_digits (v * 10 + (c - 48)) cs else (v, c ∷ cs)

-- The text goes on with something else than a digit.
abbrev pub Stops : Text → Type 0
Stops [] = Unit
Stops (c ∷ cs) = is_digit c ≡ false

read_digits-stop : (v : ℕ) (rest : Text) → Stops rest → read_digits v rest ≡ (v, rest)
unfolding read_digits
read_digits-stop v [] h = refl
read_digits-stop v (c ∷ cs) h = rw h refl

-- The text is written in front of digits that are read before the stop.
read_digits-onto :
    (fuel n : ℕ) (acc rest : Text)
    → n < fuel
    → read_digits 0 (decimal_onto fuel n acc ++ rest) ≡ read_digits n (acc ++ rest)
unfolding decimal_onto read_digits
read_digits-onto zero n acc rest h = absurd (omega arith)
read_digits-onto (suc fuel) n acc rest h = elim (Bool-cases (ltb n 10)) [
  | inl small ↦
      let d : is_digit (48 + n) ≡ true = ground arith in
      let e : 0 * 10 + (48 + n - 48) ≡ n = omega arith in
      rw small (rw d (ap (λ j. read_digits j (acc ++ rest)) e))
  | inr large ↦
      let lt : n / 10 < fuel = ground arith in
      let d : is_digit (48 + n % 10) ≡ true = ground arith in
      let e : n / 10 * 10 + (48 + n % 10 - 48) ≡ n = omega arith in
      rw large (
        read_digits-onto fuel (n / 10) ((48 + n % 10) ∷ acc) rest lt
        ∙ rw d (ap (λ j. read_digits j (acc ++ rest)) e))
]

-- What is printed for a number reads back as it, with the rest of the text.
pub read_digits-decimal :
    (n : ℕ) (rest : Text) → Stops rest → read_digits 0 (decimal n ++ rest) ≡ (n, rest)
unfolding decimal
read_digits-decimal n rest h =
    read_digits-onto (suc n) n [] rest (omega arith) ∙ read_digits-stop n rest h

pub read_digits-pad3 :
    (n : ℕ) (rest : Text) → n < 1000 → Stops rest → read_digits 0 (pad3 n ++ rest) ≡ (n, rest)
unfolding read_digits
read_digits-pad3 n rest h s =
    let a : is_digit (48 + n / 100) ≡ true = ground arith in
    let b : is_digit (48 + n / 10 % 10) ≡ true = ground arith in
    let c : is_digit (48 + n % 10) ≡ true = ground arith in
    let e : ((0 * 10 + (48 + n / 100 - 48)) * 10 + (48 + n / 10 % 10 - 48)) * 10
          + (48 + n % 10 - 48)
        ≡ n =
      omega arith in
    rw (a, b, c) (ap (λ j. read_digits j rest) e ∙ read_digits-stop n rest s)
