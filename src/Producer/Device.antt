-- ===== src/Producer/Device.antt =====
-- One reading of the device by the producer: the four lines and their numbers. fgets and sscanf are
-- those of the C library, a parameter.
use linux_device_drivers_hw.Base.Options.{◌>>=◌}
use linux_device_drivers_hw.Base.{ℕ, Option, none, some, Text}
use linux_device_drivers_hw.Producer.{Floats, SampleFloat, Reading, line_failed, complete}

-- fgets of a size, with what it puts into the array and what is left of the file, and sscanf of
-- three numbers between commas and of one.
pub record Stdio (F : Floats) : Type 0 where
  pub fgets : ℕ → Text → Option (Text × Text)
  pub scan_three : Text → Option (F.Float × F.Float × F.Float)
  pub scan_one : Text → Option F.Float

abbrev pub read_of : {F : Floats} → Option (SampleFloat F) → Reading F
read_of none = line_failed
read_of (some sample) = complete sample

module _ {F : Floats} (S : Stdio F) where
  -- The lines of an open device, up to the first that cannot be read or parsed; the interrupt count
  -- is read and not used.
  unfoldable pub parse_device : Text → Option (SampleFloat F)
  parse_device t = do
    irq ← S.fgets 128 t
    accel ← S.fgets 128 irq.1
    a ← S.scan_three accel.0
    gyro ← S.fgets 128 accel.1
    g ← S.scan_three gyro.0
    temp ← S.fgets 128 gyro.1
    c ← S.scan_one temp.0
    some (record { ax = a.0; ay = a.1; az = a.2; gx = g.0; gy = g.1; gz = g.2; temp = c })

  -- What the round of the loop makes of it.
  unfoldable pub read_device : Text → Reading F
  read_device t = read_of (parse_device t)
