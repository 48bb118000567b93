-- ===== src/Strobe/Start.antt =====
-- gpio_7seg_timer.c: the start and the exit of the module, by the descriptors that it holds.
use linux_device_drivers_hw.Base.{
  ℕ, zero, suc, ◌+◌, ◌-◌, Bool, true, false, not, ℤ, pos, pos_part, is_neg, is_zero, if◌then◌else◌,
}

-- What gpio_to_desc and gpiod_direction_output return for the seven segments and then the two
-- cathodes; and what stands in the variable `j` before the second loop sets it.
pub record Pins : Type 0 where
  pub desc : ℕ → ℤ
  pub direction : ℕ → ℤ
  pub junk : ℤ

-- The descriptors got and not put back, and the calls of gpiod_put for a cathode that was not got.
pub record Held : Type 0 where
  pub segments : ℕ
  pub cathodes : ℕ
  pub stray_puts : ℕ

-- A loop of setup_gpios over the pins from `first`, with the rounds left and the next index: the
-- result, the index at which it ended, and the descriptors got.
unfoldable pub setup_lines : Pins → ℕ → ℕ → ℕ → ℕ → ℤ × ℕ × ℕ
setup_lines p first zero i held = (pos 0, i, held)
setup_lines p first (suc left) i held =
    let rest = setup_lines p first left (i + 1) (held + 1) in
    if not (is_zero (p.desc (first + i)))
    then (p.desc (first + i), i, held)
    else if not (is_zero (p.direction (first + i)))
    then (p.direction (first + i), i, held + 1)
    else rest

-- The label `fail` of setup_gpios, with i and j as they stand.
unfoldable pub fail : ℕ → ℕ → Held → Held
fail i j h = record {
  segments = h.segments - i;
  cathodes = h.cathodes - j;
  stray_puts = h.stray_puts + (j - h.cathodes);
}

-- setup_gpios of a module that holds nothing.
unfoldable pub setup_gpios : Pins → ℤ × Held
unfolding setup_lines fail
setup_gpios p =
    let (ret, i, segments) = setup_lines p 0 7 0 0 in
    let (ret', j, cathodes) = setup_lines p 7 2 0 0 in
    if not (is_zero ret)
    then (
      ret,
      fail i (pos_part p.junk) (record { segments = segments; cathodes = 0; stray_puts = 0 }),
    )
    else if not (is_zero ret')
    then (ret', fail 7 j (record { segments = segments; cathodes = cathodes; stray_puts = 0 }))
    else (pos 0, record { segments = segments; cathodes = cathodes; stray_puts = 0 })

-- release_gpios puts back all that the module holds.
unfoldable pub release_gpios : Held → Held
release_gpios h = record h { segments = h.segments - 7; cathodes = h.cathodes - 2 }

-- What the module has registered, and whether its timer runs.
pub record Module : Type 0 where
  pub held : Held
  pub chrdev : Bool
  pub cdev : Bool
  pub strobing : Bool

-- The labels err_gpios and err_chrdev of dev_init.
unfoldable pub err_gpios : Module → Module
unfolding release_gpios
err_gpios m = record m { held = release_gpios m.held }

unfoldable pub err_chrdev : Module → Module
unfolding err_gpios
err_chrdev m = err_gpios (record m { chrdev = false })

-- dev_init, with what the two registrations return.
unfoldable pub dev_init : Pins → ℤ → ℤ → ℤ × Module
unfolding setup_gpios err_gpios err_chrdev
dev_init p region_ret cdev_ret =
    let (ret, held) = setup_gpios p in
    let m : Module = record { held = held; chrdev = false; cdev = false; strobing = false } in
    let m1 = record m { chrdev = true } in
    if not (is_zero ret)
    then (ret, m)
    else if is_neg region_ret
    then (region_ret, err_gpios m)
    else if not (is_zero cdev_ret)
    then (cdev_ret, err_chrdev m1)
    else (pos 0, record m1 { cdev = true; strobing = true })

-- dev_exit
unfoldable pub dev_exit : Module → Module
unfolding release_gpios
dev_exit m = record { held = release_gpios m.held; chrdev = false; cdev = false; strobing = false }
