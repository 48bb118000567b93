-- ===== src/Tests/PipelineRuns.antt =====
-- From the driver of the sensor to a waiting client.
use linux_device_drivers_hw.Base.{refl, inl, inr, true, false, [], ◌∷◌, List, pos, ℕ, arith}
use linux_device_drivers_hw.Mpu6050.Convert.{raw_to_sample_fixed}
use linux_device_drivers_hw.Mpu6050.Driver.{SampleState}
use linux_device_drivers_hw.Producer.{SampleFloat, round, rounds}
use linux_device_drivers_hw.Producer.Takes.{in_floats}
use linux_device_drivers_hw.Server.Cache.{CachedData, reader_round}
use linux_device_drivers_hw.Server.Cache.Published.{
  IsRead, reading, readings, taken, Brought, published_arrives,
}
use linux_device_drivers_hw.Tests.BoardRuns.{thousandths, stdio, stdio-IsStdio, process}
use linux_device_drivers_hw.Tests.Mpu6050Sensor.{flat, blank, flat-IsRaw}

-- The driver before its first sample, and with one under 4 g and 2000 degrees per second.
abbrev silent : SampleState
silent = record {
  valid = false;
  raw = blank;
  fixed = record {
    ax_mg = pos 0;
    ay_mg = pos 0;
    az_mg = pos 0;
    gx_mdps = pos 0;
    gy_mdps = pos 0;
    gz_mdps = pos 0;
    temp_mdegc = pos 0;
  };
}

abbrev sampled : SampleState
sampled = record { valid = true; raw = flat; fixed = raw_to_sample_fixed 8 24 flat }

silent-IsRead : IsRead 8 24 0 silent
silent-IsRead = record { count = omega arith; sample = inl refl }

sampled-IsRead : IsRead 8 24 1 sampled
sampled-IsRead = record { count = omega arith; sample = inr (refl, flat-IsRaw, refl) }

-- Two reads before the last: one too early, and one with a sample.
abbrev met : List (ℕ × SampleState)
met = (0, silent) ∷ ((1, sampled) ∷ [])

abbrev at_rest : CachedData thousandths
at_rest =
    let rest : SampleFloat thousandths = record {
      ax = pos 0;
      ay = pos 0;
      az = pos 0;
      gx = pos 0;
      gy = pos 0;
      gz = pos 0;
      temp = pos 0;
    } in
    record { current_sample = rest; average = rest; version = 7 }

published_arrives_example :
    let in_thousandths = in_floats stdio (λ v. v) stdio-IsStdio in
    let q =
      round
        (reading stdio (λ v. v) stdio-IsStdio 2 sampled)
        (rounds (readings stdio (λ v. v) stdio-IsStdio met) process) in
    Brought stdio
      (λ v. v)
      stdio-IsStdio
      (taken stdio (λ v. v) stdio-IsStdio met)
      (in_thousandths (raw_to_sample_fixed 8 24 flat))
      at_rest
      (reader_round q.shared_data at_rest)
published_arrives_example =
    published_arrives stdio (λ v. v) stdio-IsStdio 8 24 2 met sampled process at_rest
      (silent-IsRead, (sampled-IsRead, tt)) (omega arith) (omega arith) refl flat-IsRaw refl refl
      (omega arith)
