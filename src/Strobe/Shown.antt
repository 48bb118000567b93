-- ===== src/Strobe/Shown.antt =====
-- The two displays show what was written, and never flicker.
use linux_device_drivers_hw.Base.{
  ℕ, zero, suc, ◌-◌, ◌≤◌, ◌<◌, ◌≡◌, ◌⊎◌, inl, inr, refl, Bool, true, false, ◌&&◌, ◌||◌, List, [],
  ◌∷◌, ◌++◌, arith, if_keeps, ltb, get_or,
}
use linux_device_drivers_hw.SevenSegment.{digit_map}
use linux_device_drivers_hw.Strobe.{
  Lines, Write, segment, cathode, set_value, set_values, Strobe, segment_writes, display_digit_at,
  strobe_func,
}

-- A segment changes only while both displays are off, and a display is lit only while the other is
-- off.
abbrev is_clean : Write → Lines → Bool
is_clean (segment i level) l = get_or l.cathodes 0 false && get_or l.cathodes 1 false
is_clean (cathode i true) l = true
is_clean (cathode zero false) l = get_or l.cathodes 1 false
is_clean (cathode (suc i) false) l = get_or l.cathodes 0 false

abbrev pub all_clean : List Write → Lines → Bool
all_clean [] l = true
all_clean (w ∷ ws) l = is_clean w l && all_clean ws (set_value w l)

-- A display shows a row of segments: its cathode is low, and the other one is high.
abbrev ShowsRow : ℕ → List Bool → Lines → Type 0
ShowsRow idx row l =
    (get_or l.cathodes idx true ≡ false)
    × (get_or l.cathodes (1 - idx) false ≡ true)
    × (l.segments ≡ row)

-- A display alone shows a digit.
abbrev pub Shows : ℕ → ℕ → Lines → Type 0
Shows idx digit l = ShowsRow idx (get_or digit_map digit []) l

-- The levels of the seven segments and the two cathodes.
abbrev pub levels : Bool → Bool → Bool → Bool → Bool → Bool → Bool → Bool → Bool → Lines
levels a b c d e f g x y = record {
  segments = a ∷ b ∷ c ∷ d ∷ e ∷ f ∷ g ∷ [];
  cathodes = x ∷ y ∷ [];
}

-- A tick with a row of segments.
abbrev lighting : ℕ → List Bool → List Write
lighting idx row =
    cathode 0 true ∷ (cathode 1 true ∷ (segment_writes 7 0 row ++ (cathode idx false ∷ [])))

module _ (a b c d e f g x y : Bool) where
  lights :
      (r0 r1 r2 r3 r4 r5 r6 : Bool) (idx : ℕ)
      → idx < 2
      → let row = r0 ∷ r1 ∷ r2 ∷ r3 ∷ r4 ∷ r5 ∷ r6 ∷ [] in
        (all_clean (lighting idx row) (levels a b c d e f g x y) ≡ true)
        × ShowsRow idx row (set_values (lighting idx row) (levels a b c d e f g x y))
  unfolding set_values set_value segment_writes
  lights r0 r1 r2 r3 r4 r5 r6 zero h = (refl, (refl, refl, refl))
  lights r0 r1 r2 r3 r4 r5 r6 (suc zero) h = (refl, (refl, refl, refl))
  lights r0 r1 r2 r3 r4 r5 r6 (suc (suc n)) h = absurd (omega arith)

  -- A digit's row has seven segments.
  lights_digit :
      (idx n : ℕ)
      → idx < 2
      → n < 10
      → let row = get_or digit_map n [] in
        let after = set_values (lighting idx row) (levels a b c d e f g x y) in
        (all_clean (lighting idx row) (levels a b c d e f g x y) ≡ true) × Shows idx n after
  unfolding digit_map
  lights_digit idx zero h k = lights true true true true true true false idx h
  lights_digit idx (suc zero) h k = lights false true true false false false false idx h
  lights_digit idx (suc (suc zero)) h k = lights true true false true true false true idx h
  lights_digit idx (suc (suc (suc zero))) h k = lights true true true true false false true idx h
  lights_digit idx (suc (suc (suc (suc zero)))) h k =
      lights false true true false false true true idx h
  lights_digit idx (suc (suc (suc (suc (suc zero))))) h k =
      lights true false true true false true true idx h
  lights_digit idx (suc (suc (suc (suc (suc (suc zero)))))) h k =
      lights true false true true true true true idx h
  lights_digit idx (suc (suc (suc (suc (suc (suc (suc zero))))))) h k =
      lights true true true false false false false idx h
  lights_digit idx (suc (suc (suc (suc (suc (suc (suc (suc zero)))))))) h k =
      lights true true true true true true true idx h
  lights_digit idx (suc (suc (suc (suc (suc (suc (suc (suc (suc zero))))))))) h k =
      lights true true true true false true true idx h
  lights_digit idx (suc (suc (suc (suc (suc (suc (suc (suc (suc (suc n)))))))))) h k =
      absurd (omega arith)

  -- A tick's writes, by the character whose turn it is.
  abbrev Tick : ℕ → ℕ → List Write → Type 0
  Tick idx ch ws =
      (all_clean ws (levels a b c d e f g x y) ≡ true)
      × (((48 ≤ ch) × (ch ≤ 57) × Shows idx (ch - 48) (set_values ws (levels a b c d e f g x y)))
          ⊎ (((ch < 48) ⊎ (57 < ch))
              × ((set_values ws (levels a b c d e f g x y)).cathodes ≡ true ∷ true ∷ [])))

  display_digit_at_lem :
      (idx : ℕ) (s : Strobe)
      → idx < 2
      → Tick idx (get_or s.display_buffer idx 0) (display_digit_at idx s)
  unfolding display_digit_at set_values set_value
  display_digit_at_lem idx s h =
      let ch = get_or s.display_buffer idx 0 in
      if_keeps (λ (ws : List Write). Tick idx ch (cathode 0 true ∷ (cathode 1 true ∷ ws)))
        (ltb ch 48 || ltb 57 ch) (λ off. (refl, inr (ground arith, refl)))
        (λ on.
          let (clean, shows) = lights_digit idx (ch - 48) h (ground arith) in
          (clean, inl (ground arith, ground arith, shows)))

-- When the turn is one of the two displays', whatever the lines show before it, a tick changes a
-- segment only while both displays are off, and lights one only while the other is off; behind it
-- the display whose turn it is shows its digit alone, or, when its character is no digit, both are
-- off; and the next turn is the other display's.
pub strobe_func-Shows :
    (a b c d e f g x y : Bool) (s : Strobe)
    → s.current_digit < 2
    → let (writes, t) = strobe_func s in
      let l = levels a b c d e f g x y in
      let after = set_values writes l in
      let ch = get_or s.display_buffer s.current_digit 0 in
      (all_clean writes l ≡ true)
      × (((48 ≤ ch) × (ch ≤ 57) × Shows s.current_digit (ch - 48) after)
          ⊎ (((ch < 48) ⊎ (57 < ch)) × (after.cathodes ≡ true ∷ true ∷ [])))
      × (t.current_digit ≡ 1 - s.current_digit)
      × (t.display_buffer ≡ s.display_buffer)
unfolding strobe_func
strobe_func-Shows a b c d e f g x y s h =
    let (clean, shown) = display_digit_at_lem a b c d e f g x y s.current_digit s h in
    (clean, shown, ground arith, refl)
