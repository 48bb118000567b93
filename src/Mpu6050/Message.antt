-- ===== src/Mpu6050/Message.antt =====
-- The text that a reader of the device gets: mpu6050_kdd_print_msg and dev_read of mpu6050_core.c.
-- A text is a list of bytes, in UTF-8.
pub mod Field
pub mod Lines
use linux_device_drivers_hw.Base.{
  ℕ, ◌+◌, ◌-◌, Bool, true, false, List, [], ◌∷◌, ◌++◌, ℤ, pos, negsuc, is_neg, quot, rem,
  if◌then◌else◌, length, Text, codes, decimal, signed_decimal, pad3, fitted,
}
use linux_device_drivers_hw.Mpu6050.Convert.{Raw, SampleFixed, abs}
use linux_device_drivers_hw.Mpu6050.Driver.{SampleState}

-- The sign, the thousands, and the thousandths of a value, as "%s%d.%03d" prints them.
unfoldable pub milli_text : Text → ℤ → Text
milli_text plus v =
    let sign = if is_neg v then codes "-" else plus in
    let wh = quot v 1000 in
    let fr = rem v 1000 in sign ++ (decimal (abs wh) ++ (codes "." ++ pad3 (abs fr)))

degree : Text
degree = 194 ∷ 176 ∷ []

unfoldable pub raw_text : Raw → Text
raw_text r =
    codes "RAW ax="
    ++ (signed_decimal r.ax
        ++ (codes " ay="
            ++ (signed_decimal r.ay
                ++ (codes " az="
                    ++ (signed_decimal r.az
                        ++ (codes " gx="
                            ++ (signed_decimal r.gx
                                ++ (codes " gy="
                                    ++ (signed_decimal r.gy
                                        ++ (codes " gz="
                                            ++ (signed_decimal r.gz
                                                ++ (codes " temp="
                                                    ++ (signed_decimal r.temp
                                                        ++ codes "\n")))))))))))))

unfoldable pub packed_text : SampleFixed → Text
unfolding degree
packed_text fx =
    milli_text (codes " ") fx.ax_mg
    ++ (codes ","
        ++ (milli_text (codes " ") fx.ay_mg
            ++ (codes ","
                ++ (milli_text (codes " ") fx.az_mg
                    ++ (codes ", [g]\n"
                        ++ (milli_text (codes " ") fx.gx_mdps
                            ++ (codes ","
                                ++ (milli_text (codes " ") fx.gy_mdps
                                    ++ (codes ","
                                        ++ (milli_text (codes " ") fx.gz_mdps
                                            ++ (codes ", [dps]\n"
                                                ++ (milli_text [] fx.temp_mdegc
                                                    ++ ((codes ", [" ++ degree)
                                                        ++ codes "C]\n")))))))))))))

unfoldable pub plain_text : SampleFixed → Text
plain_text fx =
    codes "ax="
    ++ (milli_text (codes " ") fx.ax_mg
        ++ (codes " g\nay="
            ++ (milli_text (codes " ") fx.ay_mg
                ++ (codes " g\naz="
                    ++ (milli_text (codes " ") fx.az_mg
                        ++ (codes " g\ngx="
                            ++ (milli_text (codes " ") fx.gx_mdps
                                ++ (codes " dps\ngy="
                                    ++ (milli_text (codes " ") fx.gy_mdps
                                        ++ (codes " dps\ngz="
                                            ++ (milli_text (codes " ") fx.gz_mdps
                                                ++ (codes " dps\ntemp="
                                                    ++ (milli_text [] fx.temp_mdegc
                                                        ++ codes " C\n")))))))))))))

-- mpu6050_kdd_print_msg: what it puts into a buffer of `buflen` bytes.
unfoldable pub print_msg : ℕ → Raw → SampleFixed → Bool → Bool → Text
print_msg buflen r fx print_raw print_packed =
    let first = if print_raw then fitted buflen (raw_text r) else [] in
    let second = if print_packed then packed_text fx else plain_text fx in
    first ++ fitted (buflen - length first) second

-- What dev_read hands to simple_read_from_buffer, from the interrupt count and the shared sample.
unfoldable pub dev_read_text : ℕ → SampleState → Text
dev_read_text irq_count s =
    let count = codes "IRQ count: " ++ (decimal irq_count ++ codes "\n") in
    let line = fitted 256 count in
    if s.valid
    then line ++ print_msg (256 - length line) s.raw s.fixed false true
    else fitted 256 (codes "IRQ count: " ++ (decimal irq_count ++ codes "\n(no sample yet)\n"))
