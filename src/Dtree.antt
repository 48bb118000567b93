-- ===== src/Dtree.antt =====
-- 03_GPIO_DeviceTree/gpio_7seg_dtree.c: the two displays of gpio_7seg_timer.c, with lines from the
-- device tree. The driver sets logical values; device_tree.dts makes the cathodes active-low. The
-- digit table is the one of gpio_7seg.c. The descriptors are managed, so that the driver core gives
-- them back.
pub mod Polarity
pub mod Shown
pub mod Start
use linux_device_drivers_hw.Base.{
  ℕ, ◌-◌, Bool, true, false, not, ◌||◌, List, [], ◌∷◌, ◌++◌, ℤ, pos, if◌then◌else◌, ltb, set,
  get_or, length, ◌==◌,
}
use linux_device_drivers_hw.Base.Errno.{einval, efault}
use linux_device_drivers_hw.SevenSegment.{digit_map}
use linux_device_drivers_hw.Strobe.{Write, segment, cathode, Strobe, segment_writes}

-- display_digit_at, as logical values
unfoldable pub logical_digit_at : ℕ → Strobe → List Write
unfolding segment_writes
logical_digit_at idx s =
    let c = get_or s.display_buffer idx 0 in
    let lit = segment_writes 7 0 (get_or digit_map (c - 48) []) ++ (cathode idx true ∷ []) in
    cathode 0 false ∷ (cathode 1 false ∷ (if ltb c 48 || ltb 57 c then [] else lit))

-- strobe_func
unfoldable pub logical_tick : Strobe → List Write × Strobe
unfolding logical_digit_at
logical_tick s = (
  logical_digit_at s.current_digit s,
  record s { current_digit = if s.current_digit == 0 then 1 else 0 },
)

-- What dev_write stores of the bytes that it has copied.
unfoldable pub store_bytes : List ℕ → Strobe → Strobe
store_bytes [] s = s
store_bytes (a ∷ []) s = record s { display_buffer = set (set s.display_buffer 0 a) 1 32 }
store_bytes (a ∷ b ∷ rest) s = record s { display_buffer = set (set s.display_buffer 0 a) 1 b }

-- dev_write of the caller's bytes; `copied` is whether copy_from_user gets all of them.
unfoldable pub dev_write_dtree : List ℕ → Bool → Strobe → ℤ × Strobe
unfolding store_bytes
dev_write_dtree buf copied s =
    if length buf == 0
    then (pos 0, s)
    else if ltb 127 (length buf)
    then (einval, s)
    else if not copied
    then (efault, s)
    else (pos (length buf), store_bytes buf s)
