-- ===== src/SevenSegment.antt =====
-- 01_GPIO/gpio_7seg.c: the seven-segment display on GPIO lines.
pub mod Digits
pub mod Lines
use linux_device_drivers_hw.Base.{
  ℕ, zero, suc, ◌+◌, ◌-◌, Bool, true, false, not, ◌||◌, List, [], ◌∷◌, Option, none, some, ℤ, pos,
  is_neg, is_zero, if◌then◌else◌, ltb, set, get_or, replicate, length,
}
use linux_device_drivers_hw.Base.Errno.{einval, efault}

-- The segments A to G of each digit.
unfoldable pub digit_map : List (List Bool)
digit_map =
    (true ∷ true ∷ true ∷ true ∷ true ∷ true ∷ false ∷ [])
    ∷ (false ∷ true ∷ true ∷ false ∷ false ∷ false ∷ false ∷ [])
    ∷ (true ∷ true ∷ false ∷ true ∷ true ∷ false ∷ true ∷ [])
    ∷ (true ∷ true ∷ true ∷ true ∷ false ∷ false ∷ true ∷ [])
    ∷ (false ∷ true ∷ true ∷ false ∷ false ∷ true ∷ true ∷ [])
    ∷ (true ∷ false ∷ true ∷ true ∷ false ∷ true ∷ true ∷ [])
    ∷ (true ∷ false ∷ true ∷ true ∷ true ∷ true ∷ true ∷ [])
    ∷ (true ∷ true ∷ true ∷ false ∷ false ∷ false ∷ false ∷ [])
    ∷ (true ∷ true ∷ true ∷ true ∷ true ∷ true ∷ true ∷ [])
    ∷ (true ∷ true ∷ true ∷ true ∷ false ∷ true ∷ true ∷ [])
    ∷ []

-- The levels of the seven segment lines and of the cathode's, which lights the display at 0.
pub record Display : Type 0 where
  pub segments : List Bool
  pub cathode : Bool

-- `segments[i] = digit_map[digit][i]` over the seven lines, with the lines left and the next index.
unfoldable pub set_segments : ℕ → ℕ → List Bool → Display → Display
set_segments zero i row d = d
set_segments (suc left) i row d =
    set_segments left (i + 1) row (record d { segments = set d.segments i (get_or row i false) })

-- display_digit: what is no digit turns the display off.
unfoldable pub display_digit : ℕ → Display → Display
display_digit c d =
    let shown = set_segments 7 0 (get_or digit_map (c - 48) []) d in
    if ltb c 48 || ltb 57 c then record d { cathode = true } else record shown { cathode = false }

-- dev_write of the caller's bytes; `copied` is whether copy_from_user gets all of them.
unfoldable pub dev_write : List ℕ → Bool → Display → ℤ × Display
dev_write buf copied d =
    if ltb 127 (length buf)
    then (einval, d)
    else if not copied
    then (efault, d)
    else (pos (length buf), show_first buf)
  where
    show_first : List ℕ → Display
    show_first [] = d
    show_first (c ∷ rest) = display_digit c d

-- What the GPIO functions return for the seven segments and, as the eighth, the cathode: a
-- descriptor or an error for gpio_to_desc, and the result of gpiod_direction_output.
pub record Pins : Type 0 where
  pub desc : ℕ → ℤ
  pub direction : ℕ → ℤ

-- The descriptors that the driver has got and not put back.
abbrev pub Held : Type 0
Held = ℕ

-- The loop of setup_gpios, with the segments left and the next index: the result, the index at
-- which it ended, and the descriptors got.
unfoldable pub setup_segments : Pins → ℕ → ℕ → Held → ℤ × (ℕ × Held)
setup_segments p zero i held = (pos 0, (i, held))
setup_segments p (suc left) i held =
    let rest = setup_segments p left (i + 1) (held + 1) in
    if not (is_zero (p.desc i))
    then (p.desc i, (i, held))
    else if not (is_zero (p.direction i))
    then (p.direction i, (i, held + 1))
    else rest

-- setup_gpios: a failure puts back the segments before the index, and the cathode if it was got.
unfoldable pub setup_gpios : Pins → Held → ℤ × Held
setup_gpios p held =
    let r = setup_segments p 7 0 held in
    let i = r.1.0 in
    let h = r.1.1 in
    if not (is_zero r.0)
    then (r.0, h - i)
    else if not (is_zero (p.desc 7))
    then (p.desc 7, h - i)
    else if not (is_zero (p.direction 7))
    then (p.direction 7, h + 1 - i - 1)
    else (pos 0, h + 1)

-- release_gpios behind a setup that succeeded: all eight are put back.
unfoldable pub release_gpios : Held → Held
release_gpios held = held - 1 - 7

-- What the module has registered.
pub record Module : Type 0 where
  pub held : Held
  pub chrdev : Bool
  pub cdev : Bool

-- dev_init, with what the two registrations return.
unfoldable pub dev_init : Pins → ℤ → ℤ → Module → ℤ × Module
dev_init p region_ret cdev_ret m =
    let r = setup_gpios p m.held in
    let m1 = record m { held = r.1 } in
    let m2 = record m1 { chrdev = true } in
    if not (is_zero r.0)
    then (r.0, m1)
    else if is_neg region_ret
    then (region_ret, record m1 { held = release_gpios m1.held })
    else if not (is_zero cdev_ret)
    then (cdev_ret, record m2 { chrdev = false; held = release_gpios m2.held })
    else (pos 0, record m2 { cdev = true })

-- dev_exit
unfoldable pub dev_exit : Module → Module
dev_exit m = record { held = release_gpios m.held; cdev = false; chrdev = false }
