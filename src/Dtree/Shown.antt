-- ===== src/Dtree/Shown.antt =====
-- What is written to the device of the device-tree driver is what its displays show.
use mathlib.Core.Path.{subst}
use linux_device_drivers_hw.Base.{
  ℕ, ◌+◌, ◌-◌, ◌≤◌, ◌<◌, ◌≡◌, refl, sym, ap, ap₂, ◌∙◌, set, true, false, List, [], ◌∷◌, arith, map,
  pos, get_or, length, ltb, ◌==◌,
}
use linux_device_drivers_hw.Strobe.{Lines, set_values, Strobe, strobe_func}
use linux_device_drivers_hw.Strobe.Shown.{Shows}
use linux_device_drivers_hw.Strobe.Turns.{IsBoard, IsDigit, two_ticks}
use linux_device_drivers_hw.Dtree.{logical_tick, dev_write_dtree, store_bytes}
use linux_device_drivers_hw.Dtree.Polarity.{physical, tick_physical}

-- A tick of the driver on the levels of the lines.
abbrev tick_levels : Strobe → Lines → Lines
tick_levels s l = set_values (map physical (logical_tick s).0) l

tick_levels_lem : (s : Strobe) (l : Lines) → tick_levels s l ≡ set_values (strobe_func s).0 l
tick_levels_lem s l = ap (λ ws. set_values ws l) (tick_physical s).0

-- Two ticks of the driver show both bytes, the one of the display whose turn it is first.
abbrev pub ShowsWritten : ℕ → List ℕ → Strobe → Lines → Type 0
ShowsWritten turn buf s l =
    let first = tick_levels s l in
    let t = (logical_tick s).1 in
    Shows turn (get_or buf turn 0 - 48) first
    × Shows (1 - turn) (get_or buf (1 - turn) 0 - 48) (tick_levels t first)
    × ((logical_tick t).1.current_digit ≡ turn)

shows_buffer :
    (s : Strobe) (l : Lines)
    → IsBoard l
    → s.current_digit < 2
    → IsDigit (get_or s.display_buffer 0 0)
    → IsDigit (get_or s.display_buffer 1 0)
    → ShowsWritten s.current_digit s.display_buffer s l
shows_buffer s l h t a b =
    let d = two_ticks s l h t a b in
    let e : (logical_tick s).1 ≡ (strobe_func s).1 = (tick_physical s).1 in
    let first = set_values (strobe_func s).0 l in
    let f = tick_levels_lem s l in
    let t' = (strobe_func s).1 in
    (
      subst
          (λ (m : Lines). Shows s.current_digit (get_or s.display_buffer s.current_digit 0 - 48) m)
          (sym f) d.0,
      subst
          (λ (m : Lines).
            Shows (1 - s.current_digit) (get_or s.display_buffer (1 - s.current_digit) 0 - 48) m)
          (sym (ap₂ tick_levels e f ∙ tick_levels_lem t' first)) d.1,
      ap (λ u. (logical_tick u).1.current_digit) e
          ∙ ap (λ u. u.current_digit) (tick_physical t').1
          ∙ d.2,
    )

set_both : (buf : List ℕ) (a b : ℕ) → length buf ≡ 2 → set (set buf 0 a) 1 b ≡ a ∷ b ∷ []
set_both [] a b h = absurd (omega arith)
set_both (x ∷ []) a b h = absurd (omega arith)
set_both (x ∷ y ∷ []) a b h = refl
set_both (x ∷ y ∷ z ∷ buf) a b h = absurd (omega arith)

-- A write of two digits, with whatever behind them, to a driver with a buffer of two characters and
-- a turn of one of the two displays, that is at most 127 bytes long and is copied, returns its
-- length; and whatever the lines of the board show, the next two ticks show the first digit on the
-- first display and the second on the second, each alone, beginning with the display whose turn it
-- is, and the turn is the same again.
pub digits_shown :
    (a b : ℕ) (rest : List ℕ) (s : Strobe) (l : Lines)
    → length rest ≤ 125
    → length s.display_buffer ≡ 2
    → s.current_digit < 2
    → IsBoard l
    → IsDigit a
    → IsDigit b
    → let r = dev_write_dtree (a ∷ b ∷ rest) true s in
      (r.0 ≡ pos (length rest + 2)) × ShowsWritten s.current_digit (a ∷ b ∷ []) r.1 l
unfolding dev_write_dtree store_bytes
digits_shown a b rest s l len two t h da db =
    let buf = a ∷ b ∷ rest in
    let s' = record s { display_buffer = a ∷ b ∷ [] } in
    let some_bytes : (length buf == 0) ≡ false = ground arith in
    let fits : ltb 127 (length buf) ≡ false = ground arith in
    let n : length buf ≡ length rest + 2 = omega arith in
    rw (some_bytes, fits, set_both s.display_buffer a b two) (ap pos n, shows_buffer s' l h t da db)
