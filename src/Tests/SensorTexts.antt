-- ===== src/Tests/SensorTexts.antt =====
-- The texts of the sensors' drivers and the timed displays on a few values.
use linux_device_drivers_hw.Base.{List, Bool, ℕ, ◌+◌}
use linux_device_drivers_hw.Base.{
  ℕ, ◌<◌, ◌≡◌, refl, true, false, List, [], ◌∷◌, some, pos, negsuc, is_zero, arith, ◌-ℤ◌, length,
  take, min,
}
use linux_device_drivers_hw.Mpu6050.Convert.{Raw}
use linux_device_drivers_hw.Mpu6050.Driver.{SampleState}
use linux_device_drivers_hw.Mpu6050.Message.{dev_read_text}
use linux_device_drivers_hw.Mpu6050.Message.Lines.{read_message, dev_read_text-reads}
use linux_device_drivers_hw.Bmp280.{Smbus, CalibData, Bmp280, parse_calib, dev_probe, read_raw_data}
use linux_device_drivers_hw.Bmp280.Compensate.{compensate_data, fine, temperature}
use linux_device_drivers_hw.Bmp280.Compensate.Exact.{
  exact_fine, exact_temperature, IsNear, temperature_exact,
}
use linux_device_drivers_hw.Bmp280.Start.{probe_outcome}
use linux_device_drivers_hw.Bmp280.Text.{reading_text, dev_read}
use linux_device_drivers_hw.Bmp280.Text.Paging.{dev_reads, dev_reads_deliver, asked}
use linux_device_drivers_hw.Strobe.Start

abbrev raw : Raw
raw = record {
  ax = pos 0;
  ay = pos 0;
  az = pos 16384;
  temp = pos 0;
  gx = pos 0;
  gy = pos 0;
  gz = pos 0;
}

abbrev sample : SampleState
sample = record {
  valid = true;
  raw = raw;
  fixed = record {
    ax_mg = negsuc 4;
    ay_mg = pos 1017;
    az_mg = pos 0;
    gx_mdps = negsuc 249999;
    gy_mdps = pos 7;
    gz_mdps = pos 120;
    temp_mdegc = negsuc 12345;
  };
}

dev_read_text-reads_example :
    (length (dev_read_text 42 sample) < 256)
    × (read_message (dev_read_text 42 sample) ≡ some (42, sample.fixed))
dev_read_text-reads_example = dev_read_text-reads 42 sample refl (omega arith) (omega arith)

-- The example of the datasheet.
abbrev calib : CalibData
calib = record {
  dig_t1 = 27504;
  dig_t2 = pos 26435;
  dig_t3 = negsuc 999;
  dig_p1 = 36477;
  dig_p2 = negsuc 10684;
  dig_p3 = pos 3024;
  dig_p4 = pos 2855;
  dig_p5 = pos 140;
  dig_p6 = negsuc 6;
  dig_p7 = pos 15500;
  dig_p8 = negsuc 14599;
  dig_p9 = pos 6000;
}

abbrev reading : List ℕ
reading = 101 ∷ 90 ∷ 192 ∷ 126 ∷ 237 ∷ 0 ∷ []

abbrev bus : Smbus
bus = record {
  read_byte = λ reg. pos 0x58;
  write_byte = λ reg value. pos 0;
  read_block = λ reg n. (pos n, reading);
}

abbrev device : Bmp280
device = record { client = true; calib_data = calib; registered = false; written = [] }

datasheet_compensates :
    compensate_data calib (read_raw_data bus).1 ≡ record { temp = pos 2508; press = 25767233 }
unfolding compensate_data read_raw_data
datasheet_compensates = refl

near : IsNear calib 519888
unfolding ◌-ℤ◌
near = record {
  value = omega arith;
  t1 = omega arith;
  t2 = omega arith;
  t3 = omega arith;
  near = omega arith;
}

temperature_exact_example :
    temperature (fine calib 519888) ≡ exact_temperature (exact_fine calib 519888)
temperature_exact_example = temperature_exact calib 519888 near

probe_outcome_example :
    let r = dev_probe bus (pos 0) device in
    (is_zero r.0 ≡ true)
    × (r.1.registered ≡ true)
    × (r.1.calib_data ≡ parse_calib reading)
    × (r.1.written ≡ (0xf5, 0x90) ∷ (0xf4, 0x6f) ∷ [])
probe_outcome_example = probe_outcome bus (pos 0) device refl

-- The second call is not copied, and the last one comes behind the end.
abbrev calls : List (ℕ × Bool)
calls = (10, true) ∷ ((7, false) ∷ ((90, true) ∷ []))

dev_reads_deliver_example :
    let text = reading_text (compensate_data calib (read_raw_data bus).1) in
    let n = min (asked calls) (length text) in
    (dev_reads bus device calls 0 ≡ (n, take n text))
    × (dev_read bus device 5 true (length text + 3) ≡ (pos 0, length text + 3, []))
unfolding read_raw_data
dev_reads_deliver_example = dev_reads_deliver bus device calls 5 3 true refl refl

-- The first segment cannot be got, and j happens to be 2.
abbrev bad_pins : Start.Pins
bad_pins = record { desc = λ i. negsuc 1; direction = λ i. pos 0; junk = pos 2 }
