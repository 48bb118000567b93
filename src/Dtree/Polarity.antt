-- ===== src/Dtree/Polarity.antt =====
-- With the polarities of device_tree.dts the lines move as those of gpio_7seg_timer.c do.
use linux_device_drivers_hw.Base.{
  ℕ, zero, suc, ◌+◌, ◌-◌, Bool, true, false, not, ◌≡◌, refl, ap, Bool-cases, inl, inr, ◌||◌, List,
  [], ◌∷◌, ◌++◌, map, ltb, get_or,
}
use linux_device_drivers_hw.SevenSegment.{digit_map}
use linux_device_drivers_hw.Strobe.{
  Write, segment, cathode, Strobe, segment_writes, display_digit_at, strobe_func,
}
use linux_device_drivers_hw.Dtree.{logical_digit_at, logical_tick}

-- segment-gpios have the flag 0, and cathode-gpios the flag 1, GPIO_ACTIVE_LOW.
abbrev pub physical : Write → Write
physical (segment i value) = segment i value
physical (cathode i value) = cathode i (not value)

physical_segments :
    (left i : ℕ) (row : List Bool) (idx : ℕ)
    → map physical (segment_writes left i row ++ (cathode idx true ∷ []))
      ≡ segment_writes left i row ++ (cathode idx false ∷ [])
unfolding segment_writes
physical_segments zero i row idx = refl
physical_segments (suc left) i row idx =
    ap (λ ws. segment i (get_or row i false) ∷ ws) (physical_segments left (i + 1) row idx)

physical_digit :
    (idx : ℕ) (s : Strobe) → map physical (logical_digit_at idx s) ≡ display_digit_at idx s
unfolding logical_digit_at display_digit_at
physical_digit idx s =
    let c = get_or s.display_buffer idx 0 in
    elim (Bool-cases (ltb c 48 || ltb 57 c)) [
      | inl off ↦ rw off refl
      | inr lit ↦ rw lit (
          ap (λ ws. cathode 0 true ∷ (cathode 1 true ∷ ws))
            (physical_segments 7 0 (get_or digit_map (c - 48) []) idx))
    ]

-- A tick of the driver's timer moves the lines, with the polarities of the device tree, by the
-- writes of gpio_7seg_timer.c in their order, and passes the turn on as it does.
pub tick_physical :
    (s : Strobe)
    → (map physical (logical_tick s).0 ≡ (strobe_func s).0)
      × ((logical_tick s).1 ≡ (strobe_func s).1)
unfolding logical_tick strobe_func
tick_physical s = (physical_digit s.current_digit s, refl)
