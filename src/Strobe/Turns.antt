-- ===== src/Strobe/Turns.antt =====
-- Ticks from any levels of the lines, one after the other.
use mathlib.Core.Path.{subst}
use linux_device_drivers_hw.Base.{
  ℕ, zero, suc, ◌-◌, ◌≤◌, ◌<◌, ◌≡◌, ◌⊎◌, inl, inr, refl, sym, ap, ap₂, ◌∙◌, Bool, true, false, List,
  [], ◌∷◌, arith, get_or, drop, length, length-set,
}
use linux_device_drivers_hw.Strobe.{
  Lines, Write, segment, cathode, set_value, set_values, Strobe, strobe_func,
}
use linux_device_drivers_hw.Strobe.Shown.{all_clean, Shows, strobe_func-Shows}

-- A list of bits by its elements.
abbrev spell : ℕ → List Bool → List Bool
spell zero xs = []
spell (suc n) xs = get_or xs 0 false ∷ spell n (drop 1 xs)

spell_lem : (n : ℕ) (xs : List Bool) → length xs ≡ n → spell n xs ≡ xs
spell_lem zero [] h = refl
spell_lem zero (x ∷ xs) h = absurd (omega arith)
spell_lem (suc n) [] h = absurd (omega arith)
spell_lem (suc n) (x ∷ xs) h = ap (λ l. x ∷ l) (spell_lem n xs (omega arith))

-- The seven segments and the two cathodes.
abbrev pub IsBoard : Lines → Type 0
IsBoard l = (length l.segments ≡ 7) × (length l.cathodes ≡ 2)

set_values-IsBoard : (ws : List Write) (l : Lines) → IsBoard l → IsBoard (set_values ws l)
unfolding set_values set_value
set_values-IsBoard [] l h = h
set_values-IsBoard (segment i v ∷ ws) l h =
    set_values-IsBoard ws _ (length-set l.segments i v ∙ h.0, h.1)
set_values-IsBoard (cathode i v ∷ ws) l h =
    set_values-IsBoard ws _ (h.0, length-set l.cathodes i v ∙ h.1)

-- What a tick does.
abbrev Ticks : Strobe → Lines → Type 0
Ticks s l =
    let (writes, t) = strobe_func s in
    let after = set_values writes l in
    let ch = get_or s.display_buffer s.current_digit 0 in
    (all_clean writes l ≡ true)
    × (((48 ≤ ch) × (ch ≤ 57) × Shows s.current_digit (ch - 48) after)
        ⊎ (((ch < 48) ⊎ (57 < ch)) × (after.cathodes ≡ true ∷ true ∷ [])))
    × (t.current_digit ≡ 1 - s.current_digit)
    × (t.display_buffer ≡ s.display_buffer)

any_levels : (s : Strobe) (l : Lines) → IsBoard l → s.current_digit < 2 → Ticks s l
any_levels s l h t =
    let e = spell_lem 7 l.segments h.0 in
    let f = spell_lem 2 l.cathodes h.1 in
    let s1 = drop 1 l.segments in
    let s2 = drop 1 s1 in
    let s3 = drop 1 s2 in
    let s4 = drop 1 s3 in
    let s5 = drop 1 s4 in
    let s6 = drop 1 s5 in
    let first = λ (xs : List Bool). get_or xs 0 false in
    subst (Ticks s) (ap₂ (λ x y. let m : Lines = record { segments = x; cathodes = y } in m) e f) (
      strobe_func-Shows (first l.segments) (first s1) (first s2) (first s3) (first s4) (first s5)
        (first s6) (first l.cathodes) (first (drop 1 l.cathodes)) s t)

abbrev pub IsDigit : ℕ → Type 0
IsDigit ch = (48 ≤ ch) × (ch ≤ 57)

chosen-IsDigit :
    (buf : List ℕ) (i : ℕ)
    → i < 2
    → IsDigit (get_or buf 0 0)
    → IsDigit (get_or buf 1 0)
    → IsDigit (get_or buf i 0)
chosen-IsDigit buf zero h a b = a
chosen-IsDigit buf (suc zero) h a b = b
chosen-IsDigit buf (suc (suc i)) h a b = absurd (omega arith)

-- A display whose character is a digit shows it after its tick.
tick-Shows :
    (s : Strobe) (l : Lines)
    → IsBoard l
    → s.current_digit < 2
    → IsDigit (get_or s.display_buffer 0 0)
    → IsDigit (get_or s.display_buffer 1 0)
    → let (writes, t) = strobe_func s in
      Shows s.current_digit (get_or s.display_buffer s.current_digit 0 - 48) (set_values writes l)
      × (t.current_digit ≡ 1 - s.current_digit)
      × (t.display_buffer ≡ s.display_buffer)
tick-Shows s l h t a b =
    let d = chosen-IsDigit s.display_buffer s.current_digit t a b in
    let k = any_levels s l h t in
    elim k.1 [
      | inl shown ↦ (shown.2, k.2, k.3)
      | inr (inl low, off) ↦ absurd (omega arith)
      | inr (inr high, off) ↦ absurd (omega arith)
    ]

-- What two ticks in a row show: the digit of the display whose turn it is, and then the other's.
abbrev ShowsBoth : Strobe → Lines → Type 0
ShowsBoth s l =
    let (writes, t) = strobe_func s in
    let first = set_values writes l in
    let (writes', u) = strobe_func t in
    let turn = s.current_digit in
    Shows turn (get_or s.display_buffer turn 0 - 48) first
    × Shows (1 - turn) (get_or s.display_buffer (1 - turn) 0 - 48) (set_values writes' first)
    × (u.current_digit ≡ turn)
    × (u.display_buffer ≡ s.display_buffer)

pub two_ticks :
    (s : Strobe) (l : Lines)
    → IsBoard l
    → s.current_digit < 2
    → IsDigit (get_or s.display_buffer 0 0)
    → IsDigit (get_or s.display_buffer 1 0)
    → ShowsBoth s l
two_ticks s l h t a b =
    let r = strobe_func s in
    let first = set_values r.0 l in
    let one = tick-Shows s l h t a b in
    let two =
      tick-Shows r.1 first (set_values-IsBoard r.0 l h) (omega (arith, one.1))
        (subst (λ (buf : List ℕ). IsDigit (get_or buf 0 0)) (sym one.2) a)
        (subst (λ (buf : List ℕ). IsDigit (get_or buf 1 0)) (sym one.2) b) in
    let after = set_values (strobe_func r.1).0 first in
    (
      one.0,
      subst (λ (i : ℕ). Shows i (get_or s.display_buffer i 0 - 48) after) one.1
          (subst
            (λ (buf : List ℕ). Shows r.1.current_digit (get_or buf r.1.current_digit 0 - 48) after)
            one.2 two.0),
      omega (arith, two.1, one.1),
      two.2 ∙ one.2,
    )
