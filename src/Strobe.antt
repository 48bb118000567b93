-- ===== src/Strobe.antt =====
-- 02_GPIO_Timer/gpio_7seg_timer.c: two seven-segment displays on the same segment lines, lit in
-- turn by a timer. What the code does to the lines is a list of writes, in their order.
pub mod Shown
pub mod Start
pub mod Turns
use linux_device_drivers_hw.Base.{
  ℕ, zero, suc, ◌+◌, ◌-◌, Bool, true, false, not, ◌||◌, List, [], ◌∷◌, ◌++◌, ℤ, pos, is_neg,
  is_zero, if◌then◌else◌, ltb, set, get_or, length, ◌==◌,
}
use linux_device_drivers_hw.Base.Errno.{einval, efault}
use linux_device_drivers_hw.SevenSegment.{digit_map}

-- The levels of the lines; a cathode lights its display at 0.
pub record Lines : Type 0 where
  pub segments : List Bool
  pub cathodes : List Bool

-- gpiod_set_value of a segment or of a cathode.
pub data Write : Type 0 where
  segment : ℕ → Bool → Write
  cathode : ℕ → Bool → Write

unfoldable pub set_value : Write → Lines → Lines
set_value (segment i level) l = record l { segments = set l.segments i level }
set_value (cathode i level) l = record l { cathodes = set l.cathodes i level }

unfoldable pub set_values : List Write → Lines → Lines
set_values [] l = l
set_values (w ∷ ws) l = set_values ws (set_value w l)

-- display_buffer and current_digit
pub record Strobe : Type 0 where
  pub display_buffer : List ℕ
  pub current_digit : ℕ

-- `segments[i] = digit_map[digit][i]`, with the lines left and the next index.
unfoldable pub segment_writes : ℕ → ℕ → List Bool → List Write
segment_writes zero i row = []
segment_writes (suc left) i row = segment i (get_or row i false) ∷ segment_writes left (i + 1) row

-- display_digit_at
unfoldable pub display_digit_at : ℕ → Strobe → List Write
unfolding segment_writes
display_digit_at idx s =
    let c = get_or s.display_buffer idx 0 in
    let lit = segment_writes 7 0 (get_or digit_map (c - 48) []) ++ (cathode idx false ∷ []) in
    cathode 0 true ∷ (cathode 1 true ∷ (if ltb c 48 || ltb 57 c then [] else lit))

-- strobe_func
unfoldable pub strobe_func : Strobe → List Write × Strobe
unfolding display_digit_at
strobe_func s = (
  display_digit_at s.current_digit s,
  record s { current_digit = if s.current_digit == 0 then 1 else 0 },
)

unfoldable pub fill : List ℕ → Strobe → Strobe
fill [] s = s
fill (a ∷ []) s = record s { display_buffer = set (set s.display_buffer 0 a) 1 32 }
fill (a ∷ b ∷ rest) s = record s { display_buffer = set (set s.display_buffer 0 a) 1 b }

-- dev_write of the caller's bytes; `copied` is whether copy_from_user gets all of them.
unfoldable pub dev_write : List ℕ → Bool → Strobe → ℤ × Strobe
unfolding fill
dev_write buf copied s =
    if ltb 127 (length buf)
    then (einval, s)
    else if not copied
    then (efault, s)
    else (pos (length buf), fill buf s)
