-- ===== src/Tests/BoardRuns.antt =====
-- The displays of the device tree, and a round of the producer on the text of the sensor's driver.
use linux_device_drivers_hw.Base.Options.{◌>>=◌}
use linux_device_drivers_hw.Base.{
  ℕ, zero, suc, ◌+◌, ◌-◌, ◌≤◌, ◌==◌, length, ap, inr, ◌≡◌, refl, read_digits, true, false, [], ◌∷◌,
  ◌++◌, Option, none, some, ℤ, pos, negsuc, arith, map, Text, if◌then◌else◌, ◌+ℤ◌,
}
use linux_device_drivers_hw.Strobe.{Strobe, strobe_func}
use linux_device_drivers_hw.Strobe.Shown.{levels}
use linux_device_drivers_hw.Dtree.{logical_tick, dev_write_dtree}
use linux_device_drivers_hw.Dtree.Polarity.{physical, tick_physical}
use linux_device_drivers_hw.Dtree.Shown.{ShowsWritten, digits_shown}
use linux_device_drivers_hw.Mpu6050.Driver.{SampleState}
use linux_device_drivers_hw.Mpu6050.Message.{dev_read_text}
use linux_device_drivers_hw.Mpu6050.Message.Field.{read_milli, read_milli-milli_text}
use linux_device_drivers_hw.Mpu6050.Message.Lines.{IsWord, read_three, read_three-append}
use linux_device_drivers_hw.Producer.{Floats, Process, cleared, store, round}
use linux_device_drivers_hw.Producer.Device.{Stdio, read_device}
use linux_device_drivers_hw.Producer.Stdio.{IsLine, IsStdio}
use linux_device_drivers_hw.Producer.Takes.{in_floats, round_takes}

abbrev board : Strobe
board = record { display_buffer = 48 ∷ 48 ∷ []; current_digit = 1 }

tick_physical_example :
    (map physical (logical_tick board).0 ≡ (strobe_func board).0)
    × ((logical_tick board).1 ≡ (strobe_func board).1)
tick_physical_example = tick_physical board

-- "42" and a newline
digits_shown_example :
    let r = dev_write_dtree (52 ∷ 50 ∷ 10 ∷ []) true board in
    (r.0 ≡ pos 3)
    × ShowsWritten 1 (52 ∷ 50 ∷ []) r.1 (levels true false true false true false true false true)
digits_shown_example =
    digits_shown 52 50 (10 ∷ []) board (levels true false true false true false true false true)
      (omega arith) refl (omega arith) (refl, refl) (omega arith) (omega arith)

-- A C library with integers of thousandths in place of floats.
abbrev pub thousandths : Floats
thousandths = record { Float = ℤ; zero_float = pos 0; add = λ a b. a +ℤ b; divide = λ a n. a }

abbrev line_of : ℕ → Text → Text × Text
line_of zero t = ([], t)
line_of (suc k) [] = ([], [])
line_of (suc k) (c ∷ cs) =
    let rest = line_of k cs in if c == 10 then (10 ∷ [], cs) else (c ∷ rest.0, rest.1)

line_of_lem :
    (k : ℕ) (line rest : Text)
    → IsLine line
    → length line + 1 ≤ k
    → line_of k (line ++ (10 ∷ rest)) ≡ (line ++ (10 ∷ []), rest)
line_of_lem zero line rest h l = absurd (omega arith)
line_of_lem (suc k) [] rest h l = refl
line_of_lem (suc k) (c ∷ cs) rest h l =
    let other : (c == 10) ≡ false = ground arith in
    rw other (ap (λ (r : Text × Text). (c ∷ r.0, r.1)) (line_of_lem k cs rest h.1 (omega arith)))

abbrev gets_line : ℕ → Text → Option (Text × Text)
gets_line n [] = none
gets_line n (c ∷ cs) = some (line_of (n - 1) (c ∷ cs))

gets_line_lem :
    (n : ℕ) (line rest : Text)
    → IsLine line
    → length line + 2 ≤ n
    → gets_line n (line ++ (10 ∷ rest)) ≡ some (line ++ (10 ∷ []), rest)
gets_line_lem n [] rest h l = ap some (line_of_lem (n - 1) [] rest h (omega arith))
gets_line_lem n (c ∷ cs) rest h l = ap some (line_of_lem (n - 1) (c ∷ cs) rest h (omega arith))

abbrev pub stdio : Stdio thousandths
stdio = record {
  fgets = gets_line;
  scan_three = λ t. do
    r ← read_three [] t
    some r.0;
  scan_one = λ t. do
    r ← read_milli t
    some r.0;
}

pub stdio-IsStdio : IsStdio stdio (λ v. v)
unfolding read_milli read_digits
stdio-IsStdio = record {
  gets = λ n line rest small h l. gets_line_lem n line rest h l;
  three = λ x y z tail hx hy hz. rw (read_three-append [] x y z (44 ∷ tail) refl) refl;
  one = λ x tail h. rw (read_milli-milli_text [] x (44 ∷ tail) (inr refl) refl) refl;
  other = λ t. refl;
}

abbrev published : SampleState
published = record {
  valid = true;
  raw = record {
    ax = pos 0;
    ay = pos 0;
    az = pos 16384;
    temp = pos 0;
    gx = pos 0;
    gy = pos 0;
    gz = pos 0;
  };
  fixed = record {
    ax_mg = negsuc 4;
    ay_mg = pos 1017;
    az_mg = pos 0;
    gx_mdps = pos 250000;
    gy_mdps = negsuc 999;
    gz_mdps = pos 7;
    temp_mdegc = pos 36530;
  };
}

published-IsWord : IsWord published.fixed
published-IsWord = record {
  ax = omega arith;
  ay = omega arith;
  az = omega arith;
  gx = omega arith;
  gy = omega arith;
  gz = omega arith;
  temp = omega arith;
}

abbrev pub process : Process thousandths
process = record { fds = 3; maps = 1; sems = 1; semaphore = 1; shared_data = cleared thousandths }

round_takes_example :
    let q = round (read_device stdio (dev_read_text 9 published)) process in
    (q.shared_data
      ≡ store thousandths
          (in_floats stdio (λ v. v) stdio-IsStdio published.fixed)
          (cleared thousandths))
    × (q.fds ≡ 3)
round_takes_example =
    round_takes stdio (λ v. v) stdio-IsStdio 9 published process (omega arith) published-IsWord
