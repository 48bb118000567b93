-- ===== src/SevenSegment/Lines.antt =====
-- The descriptors that the module holds: what a failed start and an exit leave.
use linux_device_drivers_hw.Base.{
  ℕ, zero, suc, ◌+◌, ◌-◌, ◌≤◌, ◌≡◌, ◌⊎◌, true, false, ℤ, arith, is_zero,
}
use linux_device_drivers_hw.SevenSegment.{
  Pins, Held, setup_segments, setup_gpios, release_gpios, Module, dev_init, dev_exit,
}

setup_segments_lem :
    (p : Pins) (left i : ℕ) (held : Held)
    → let r = setup_segments p left i held in
      (i ≤ r.1.0)
      × (((is_zero r.0 ≡ true) × (r.1.0 ≡ i + left) × (r.1.1 ≡ held + left))
          ⊎ ((is_zero r.0 ≡ false)
              × (held + (r.1.0 - i) ≤ r.1.1)
              × (r.1.1 ≤ held + (r.1.0 - i) + 1)))
unfolding setup_segments
setup_segments_lem p zero i held = ground arith
setup_segments_lem p (suc left) i held =
    ground (arith, setup_segments_lem p left (i + 1) (held + 1))

setup_gpios_lem :
    (p : Pins) (held : Held)
    → let r = setup_gpios p held in
      ((is_zero r.0 ≡ true) × (r.1 ≡ held + 8))
      ⊎ ((is_zero r.0 ≡ false) × (held ≤ r.1) × (r.1 ≤ held + 1))
unfolding setup_gpios
setup_gpios_lem p held = ground (arith, setup_segments_lem p 7 0 held)

-- Whatever the pins and the registrations answer, `dev_init` of a module that has nothing
-- registered either returns something that is not 0, with nothing registered and at most one
-- descriptor more held than before, or returns 0 with both registrations made and eight descriptors
-- more, which `dev_exit` gives back with the registrations.
init_exit_holds :
    (p : Pins) (region_ret cdev_ret : ℤ) (m : Module)
    → m.chrdev ≡ false
    → m.cdev ≡ false
    → let r = dev_init p region_ret cdev_ret m in
      ((is_zero r.0 ≡ false)
        × (r.1.chrdev ≡ false)
        × (r.1.cdev ≡ false)
        × (m.held ≤ r.1.held)
        × (r.1.held ≤ m.held + 1))
      ⊎ ((is_zero r.0 ≡ true)
          × (r.1.chrdev ≡ true)
          × (r.1.cdev ≡ true)
          × (r.1.held ≡ m.held + 8)
          × (dev_exit r.1 ≡ m))
unfolding dev_init dev_exit release_gpios
init_exit_holds p region_ret cdev_ret m h k = ground (arith, setup_gpios_lem p m.held)
