-- ===== src/Bmp280/Text.antt =====
-- dev_read of the BMP280: the text of a reading, and the part of it that a call returns.
pub mod Paging
use linux_device_drivers_hw.Base.{
  ℕ, zero, suc, ◌+◌, ◌-◌, ◌*◌, ◌/◌, ◌%◌, ◌^◌, ◌≤◌, ◌<◌, ◌≡◌, ◌≢◌, Bool, true, false, not, List, [],
  ◌∷◌, ◌++◌, ℤ, pos, negsuc, is_zero, quot, rem, if◌then◌else◌, ltb, leb, length, take, drop, Text,
  codes, decimal, signed_decimal, fitted,
}
use linux_device_drivers_hw.Base.Errno.{efault, enodev}
use linux_device_drivers_hw.Bmp280.{Smbus, Bmp280, read_raw_data}
use linux_device_drivers_hw.Bmp280.Compensate.{Bmp280Data, compensate_data}

-- `%02d`, which counts a sign to the width.
unfoldable pub padded : Text → Text
padded t = if ltb (length t) 2 then codes "0" ++ t else t

unfoldable pub pad2 : ℤ → Text
unfolding padded
pad2 (pos n) = padded (decimal n)
pad2 (negsuc n) = codes "-" ++ decimal (n + 1)

-- The line that is formatted, in UTF-8.
unfoldable pub reading_text : Bmp280Data → Text
unfolding signed_decimal pad2
reading_text o =
    codes "Temp: "
    ++ (signed_decimal (quot o.temp 100)
        ++ (codes "."
            ++ (pad2 (rem o.temp 100)
                ++ ((32 ∷ 194 ∷ 176 ∷ codes "C, Press: ")
                    ++ (decimal (o.press / 25600)
                        ++ (codes "."
                            ++ (pad2 (pos (o.press % 25600 * 100 / 25600)) ++ codes " hPa\n")))))))

-- What a call with a reading returns, the file's position, and the bytes for the caller: snprintf
-- returns the full length, and the array of 64 bytes holds what fits.
unfoldable pub read_page : Text → ℕ → Bool → ℕ → ℤ × ℕ × Text
read_page text count copied ppos =
    let kbuf = fitted 64 text in
    let len = length text in
    let count' = if ltb (len - ppos) count then len - ppos else count in
    if leb len ppos
    then (pos 0, ppos, [])
    else if not copied
    then (efault, ppos, [])
    else (pos count', ppos + count', take count' (drop ppos kbuf))

-- dev_read, with whether copy_to_user succeeds.
unfoldable pub dev_read : Smbus → Bmp280 → ℕ → Bool → ℕ → ℤ × ℕ × Text
unfolding reading_text read_page
dev_read bus d count copied ppos =
    let (ret, raw) = read_raw_data bus in
    if not d.client
    then (enodev, ppos, [])
    else if not (is_zero ret)
    then (ret, ppos, [])
    else read_page (reading_text (compensate_data d.calib_data raw)) count copied ppos
