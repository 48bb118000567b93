-- ===== src/Tests/DisplayRuns.antt =====
-- The seven-segment display.
use linux_device_drivers_hw.Base.{◌≡◌, ◌⊎◌, true, false, [], ◌∷◌, pos, is_neg, some}
use linux_device_drivers_hw.SevenSegment.{dev_write}
use linux_device_drivers_hw.SevenSegment.Digits.{reads, lines, write_shows}

-- The bytes "7" and a line feed.
write_shows_example :
    let before = lines true true false false true true false true in
    let r = dev_write (55 ∷ 10 ∷ []) true before in
    ((false ≡ true) × (is_neg r.0 ≡ true) × (r.1 ≡ before))
    ⊎ ((false ≡ false) × (r.0 ≡ pos 2) × (reads r.1 ≡ some 7))
write_shows_example = write_shows true true false false true true false true 55 (10 ∷ []) true
