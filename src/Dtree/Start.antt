-- ===== src/Dtree/Start.antt =====
-- gpio_7seg_dtree.c: the probe and the removal of the displays.
use linux_device_drivers_hw.Base.{
  ℕ, zero, suc, ◌+◌, ◌≤◌, ◌≡◌, ◌⊎◌, Bool, true, false, not, ℤ, pos, is_zero, arith, if◌then◌else◌,
  ◌&&◌,
}

-- What the driver has got for its device, and what it has started: managed descriptors, the misc
-- device, and the timer.
record SevenSeg : Type 0 where
  pub segments : ℕ
  pub cathodes : ℕ
  pub misc_registered : Bool
  pub strobing : Bool

-- A loop of setup_gpios, with what devm_gpiod_get_index returns for each index, the rounds left,
-- and the next index: its result, and the descriptors got.
unfoldable get_lines : (ℕ → ℤ) → ℕ → ℕ → ℤ × ℕ
get_lines desc zero i = (pos 0, i)
get_lines desc (suc left) i =
    let rest = get_lines desc left (i + 1) in if not (is_zero (desc i)) then (desc i, i) else rest

-- setup_gpios of the segments and the cathodes
unfoldable setup_lines_dtree : (ℕ → ℤ) → (ℕ → ℤ) → SevenSeg → ℤ × SevenSeg
unfolding get_lines
setup_lines_dtree segment cathode d =
    let s = get_lines segment 7 0 in
    let c = get_lines cathode 2 0 in
    let d1 = record d { segments = s.1 } in
    if not (is_zero s.0) then (s.0, d1) else (c.0, record d1 { cathodes = c.1 })

-- sevenseg_probe
unfoldable sevenseg_probe : (ℕ → ℤ) → (ℕ → ℤ) → ℤ → SevenSeg → ℤ × SevenSeg
unfolding setup_lines_dtree
sevenseg_probe segment cathode misc_ret d =
    let r = setup_lines_dtree segment cathode d in
    if not (is_zero r.0)
    then r
    else if not (is_zero misc_ret)
    then (misc_ret, r.1)
    else (pos 0, record r.1 { misc_registered = true; strobing = true })

-- sevenseg_remove
unfoldable sevenseg_remove : SevenSeg → SevenSeg
sevenseg_remove d = record d { strobing = false; misc_registered = false }

-- Every line of the device tree can be got.
abbrev all_zero : (ℕ → ℤ) → ℕ → ℕ → Bool
all_zero desc zero i = true
all_zero desc (suc left) i = is_zero (desc i) && all_zero desc left (i + 1)

get_lines_lem :
    (desc : ℕ → ℤ) (left i : ℕ)
    → let r = get_lines desc left i in
      (is_zero r.0 ≡ all_zero desc left i)
      × (r.1 ≤ i + left)
      × ((is_zero r.0 ≡ false) ⊎ (r.1 ≡ i + left))
unfolding get_lines
get_lines_lem desc zero i = ground arith
get_lines_lem desc (suc left) i = ground (arith, get_lines_lem desc left (i + 1))

-- A probe of displays on which nothing is started returns 0 exactly when all seven segments, both
-- cathodes and the misc device are got; then it holds the nine descriptors, with the misc device
-- registered and the timer running; otherwise neither is. The removal ends both.
probe_outcome_dtree :
    (segment cathode : ℕ → ℤ) (misc_ret : ℤ) (d : SevenSeg)
    → d.misc_registered ≡ false
    → d.strobing ≡ false
    → let r = sevenseg_probe segment cathode misc_ret d in
      let ok = all_zero segment 7 0 && (all_zero cathode 2 0 && is_zero misc_ret) in
      (is_zero r.0 ≡ ok)
      × (r.1.misc_registered ≡ ok)
      × (r.1.strobing ≡ ok)
      × ((ok ≡ false) ⊎ ((r.1.segments ≡ 7) × (r.1.cathodes ≡ 2)))
      × ((sevenseg_remove r.1).misc_registered ≡ false)
      × ((sevenseg_remove r.1).strobing ≡ false)
unfolding sevenseg_probe sevenseg_remove setup_lines_dtree
probe_outcome_dtree segment cathode misc_ret d m t =
    ground (arith, get_lines_lem segment 7 0, get_lines_lem cathode 2 0)
