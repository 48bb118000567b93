-- ===== src/Bmp280/Start.antt =====
-- What the probe of the BMP280 comes to.
use linux_device_drivers_hw.Base.{
  ℕ, Bool, false, not, ◌&&◌, ◌≡◌, ◌∷◌, ℤ, pos, negsuc, is_neg, is_zero, arith, if◌then◌else◌, ◌==◌,
}
use linux_device_drivers_hw.Bmp280.{Smbus, Bmp280, parse_calib, dev_probe}

abbrev equals : ℤ → ℕ → Bool
equals (pos n) k = n == k
equals (negsuc n) k = false

-- The sensor is there, takes its two settings, and gives its whole calibration.
abbrev pub starts : Smbus → Bool
starts bus =
    equals (bus.read_byte 0xd0) 0x58
    && (not (is_neg (bus.write_byte 0xf4 0x6f))
        && (not (is_neg (bus.write_byte 0xf5 0x90)) && equals (bus.read_block 0x88 24).0 24))

-- From a device that is not registered, dev_probe returns 0 exactly when the chip answers with the
-- identity 0x58, both settings are written, all 24 bytes of the calibration come, and the device is
-- registered; then those bytes are the calibration, and the settings are what has been written.
-- Otherwise the device is not registered, and unless only its registration has failed the
-- calibration is as before.
pub probe_outcome :
    (bus : Smbus) (misc_ret : ℤ) (d : Bmp280)
    → d.registered ≡ false
    → let r = dev_probe bus misc_ret d in
      let ok = starts bus && is_zero misc_ret in
      (is_zero r.0 ≡ ok)
      × (r.1.registered ≡ ok)
      × (r.1.calib_data
          ≡ (if starts bus then parse_calib (bus.read_block 0x88 24).1 else d.calib_data))
      × (if starts bus then r.1.written ≡ (0xf5, 0x90) ∷ (0xf4, 0x6f) ∷ d.written else Unit)
unfolding dev_probe
probe_outcome bus misc_ret d h = ground arith
