-- ===== src/SevenSegment/Digits.antt =====
-- What is written is what the display shows.
use linux_device_drivers_hw.Base.{
  ℕ, zero, suc, ◌+◌, ◌-◌, ◌≤◌, ◌<◌, ◌≡◌, refl, ◌⊎◌, inl, inr, Bool-cases, ap, ◌∙◌, Bool, true,
  false, not, ◌||◌, List, [], ◌∷◌, Option, none, some, pos, is_neg, arith, if◌then◌else◌, ltb,
  length, get_or,
}
use linux_device_drivers_hw.SevenSegment.{
  digit_map, Display, set_segments, display_digit, dev_write,
}

-- The digit that a row of segments shows, found from the outside: by its segments alone.
abbrev digit_shown : Bool → Bool → Bool → Bool → Bool → Bool → Bool → Option ℕ
digit_shown true true true true true true false = some 0
digit_shown false true true false false false false = some 1
digit_shown true true false true true false true = some 2
digit_shown true true true true false false true = some 3
digit_shown false true true false false true true = some 4
digit_shown true false true true false true true = some 5
digit_shown true false true true true true true = some 6
digit_shown true true true false false false false = some 7
digit_shown true true true true true true true = some 8
digit_shown true true true true false true true = some 9
digit_shown a b c d e f g = none

-- What can be read off a display: nothing when it is off.
abbrev pub reads : Display → Option ℕ
reads d =
    let b = d.segments in
    if d.cathode
    then none
    else digit_shown (get_or b 0 false) (get_or b 1 false) (get_or b 2 false) (get_or b 3 false)
        (get_or b 4 false) (get_or b 5 false) (get_or b 6 false)

display_at :
    (a b c d e f g k : Bool) (n : ℕ)
    → n < 10
    → reads
        (display_digit (48 + n) (record { segments = a ∷ b ∷ c ∷ d ∷ e ∷ f ∷ g ∷ []; cathode = k }))
      ≡ some n
unfolding display_digit set_segments digit_map
display_at a b c d e f g k zero h = refl
display_at a b c d e f g k (suc zero) h = refl
display_at a b c d e f g k (suc (suc zero)) h = refl
display_at a b c d e f g k (suc (suc (suc zero))) h = refl
display_at a b c d e f g k (suc (suc (suc (suc zero)))) h = refl
display_at a b c d e f g k (suc (suc (suc (suc (suc zero))))) h = refl
display_at a b c d e f g k (suc (suc (suc (suc (suc (suc zero)))))) h = refl
display_at a b c d e f g k (suc (suc (suc (suc (suc (suc (suc zero))))))) h = refl
display_at a b c d e f g k (suc (suc (suc (suc (suc (suc (suc (suc zero)))))))) h = refl
display_at a b c d e f g k (suc (suc (suc (suc (suc (suc (suc (suc (suc zero))))))))) h = refl
display_at a b c d e f g k (suc (suc (suc (suc (suc (suc (suc (suc (suc (suc n)))))))))) h =
    absurd (omega arith)

-- A character that is no digit turns the display off; a digit's shows it.
abbrev shown_by : ℕ → Option ℕ
shown_by c = if ltb c 48 || ltb 57 c then none else some (c - 48)

abbrev pub lines : Bool → Bool → Bool → Bool → Bool → Bool → Bool → Bool → Display
lines a b c d e f g k = record { segments = a ∷ b ∷ c ∷ d ∷ e ∷ f ∷ g ∷ []; cathode = k }

display_shows :
    (a b c d e f g k : Bool) (ch : ℕ)
    → reads (display_digit ch (lines a b c d e f g k)) ≡ shown_by ch
unfolding display_digit
display_shows a b c d e f g k ch = elim (Bool-cases (ltb ch 48 || ltb 57 ch)) [
  | inl off ↦ rw off refl
  | inr on ↦
      let low : 48 ≤ ch = ground arith in
      let high : ch ≤ 57 = ground arith in
      let digit : ch ≡ 48 + (ch - 48) = omega arith in
      let shown : some (ch - 48) ≡ shown_by ch = rw on refl in
      ap (λ j. reads (display_digit j (lines a b c d e f g k))) digit
      ∙ display_at a b c d e f g k (ch - 48) (omega arith)
      ∙ shown
]

-- A write of some bytes to a display of seven segment lines returns an error and leaves the display
-- as it was, when there are more than 127 bytes or they cannot be copied; otherwise it returns
-- their number, and what can then be read off the display, whatever it showed before, is the first
-- byte when that is a digit, and nothing when it is not.
pub write_shows :
    (a b c d e f g k : Bool) (ch : ℕ) (rest : List ℕ) (copied : Bool)
    → let before = lines a b c d e f g k in
      let r = dev_write (ch ∷ rest) copied before in
      (((ltb 127 (length (ch ∷ rest)) || not copied) ≡ true) × (is_neg r.0 ≡ true) × (r.1 ≡ before))
      ⊎ (((ltb 127 (length (ch ∷ rest)) || not copied) ≡ false)
          × (r.0 ≡ pos (length (ch ∷ rest)))
          × (reads r.1 ≡ shown_by ch))
unfolding dev_write
write_shows a b c d e f g k ch rest copied = ground (arith, display_shows a b c d e f g k ch)
