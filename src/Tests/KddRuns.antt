-- ===== src/Tests/KddRuns.antt =====
-- The driver over the kernel's I2C core, with a sensor whose FIFO is a list of bytes.
use linux_device_drivers_hw.Base.{
  ℕ, zero, suc, ◌+◌, ◌/◌, ◌≤◌, ◌<◌, ◌≡◌, ◌⊎◌, inl, inr, refl, ap, true, false, List, [], ◌∷◌, ◌++◌,
  Option, none, some, pos, is_neg, is_zero, arith, if◌then◌else◌, ltb, take, drop, length,
  length-take, All, replicate,
}
use linux_device_drivers_hw.Mpu6050.Config.{default_config}
use linux_device_drivers_hw.Mpu6050.Convert.{Raw, IsRaw}
use linux_device_drivers_hw.Mpu6050.Device
use linux_device_drivers_hw.Mpu6050.Device.{Dev}
use linux_device_drivers_hw.Mpu6050.Fifo.{chunk_of, read_fifo_samples}
use linux_device_drivers_hw.Mpu6050.Fifo.Slices.{All-take, All-drop}
use linux_device_drivers_hw.Mpu6050.Fifo.Samples.{encode_all}
use linux_device_drivers_hw.Kdd.{
  I2cCore, bytes, Mpu, mpu6050_kdd_init, mpu6050_kdd_whoami, mpu6050_kdd_reset, mpu6050_write_reg,
  program_registers, mpu6050_kdd_reset_fifo,
}
use linux_device_drivers_hw.Kdd.Fifo.{
  fetch_frames, mpu6050_read_fifo_samples, mpu6050_read_fifo_bytes, read_rounds, after_block,
}
use linux_device_drivers_hw.Kdd.SameProgram.{client_bus, plain, with_client, same_init}
use linux_device_drivers_hw.Kdd.SameFifo.{IsComplete, same_samples}
use linux_device_drivers_hw.Kdd.Short.{IsStreaming}
use linux_device_drivers_hw.Kdd.Frames.{fetch_part}
use linux_device_drivers_hw.Kdd.Through.{noting, Through}
use linux_device_drivers_hw.Pdev.{init_mpu6050}
use linux_device_drivers_hw.Pdev.Driver.{
  Globals, init_sensor, init_if_mpu, mpu6050_irq_thread, remove_sensor,
}
use linux_device_drivers_hw.Pdev.Binding.{
  unbound, probing, bound, Driver, starts_sensor, begins, starts, Run, stay, then_step,
}
use linux_device_drivers_hw.Pdev.Rebind.{bound_accesses, stale_client}
use linux_device_drivers_hw.Misc.{MiscCalls, probe_misc, remove_misc}
use linux_device_drivers_hw.Misc.Outcome.{fresh, identity, Starts, probe_misc_outcome}
use linux_device_drivers_hw.Tests.Mpu6050Sensor.{Bytes, reg_value, reg_value-lt}

take_min : (k : ℕ) (xs : List ℕ) → take k xs ≡ take (length (take k xs)) xs
take_min zero xs = refl
take_min (suc k) [] = refl
take_min (suc k) (x ∷ xs) = ap (λ l. x ∷ l) (take_min k xs)

drop_min : (k : ℕ) (xs : List ℕ) → drop k xs ≡ drop (length (take k xs)) xs
drop_min zero xs = refl
drop_min (suc k) [] = refl
drop_min (suc k) (x ∷ xs) = drop_min k xs

bytes_inj : {a b : List ℕ} → bytes a ≡ bytes b → a ≡ b
bytes_inj h = cc

-- Blocks of at most eight bytes.
abbrev size : ℕ → ℕ
size len = if ltb 8 len then 8 else len

block_fits_lem :
    (len : ℕ) (s : Bytes) (b : List ℕ)
    → bytes (take (size len) s.0) ≡ bytes b
    → (length b ≤ len) × All (λ v. v < 256) b
block_fits_lem len s b h = rw (← bytes_inj h) (
  let e : size len ≤ len = ground arith in omega (arith, length-take (size len) s.0),
  All-take (λ v. v < 256) (size len) s.0 s.1,
)

abbrev short_core : I2cCore
short_core = record {
  State = Bytes;
  write_byte_data = λ client reg val s. (pos 0, s);
  read_byte_data = λ client reg s. (pos (reg_value reg), s);
  read_i2c_block_data = λ client reg len s. (
    bytes (take (size len) s.0),
    (drop (size len) s.0, All-drop (λ v. v < 256) (size len) s.0 s.1),
  );
  write_sign = λ client reg val s. inl refl;
  read_range = λ client reg s. inr (reg_value reg, refl, reg_value-lt reg);
  block_fits = λ client reg len s b e. block_fits_lem len s b e;
}

abbrev mpu : Mpu
mpu = record { client = none; accel_scale = 0; gyro_scale = 0; initialized = false }

abbrev ready : Dev
ready = record { i2c_addr = 0x68; accel_scale = 0; gyro_scale = 0; initialized = true }

abbrev still_raw : Raw
still_raw = record {
  ax = pos 0;
  ay = pos 0;
  az = pos 16384;
  temp = pos 0;
  gx = pos 0;
  gy = pos 0;
  gz = pos 0;
}

still_raw-IsRaw : IsRaw still_raw
still_raw-IsRaw = record {
  ax = omega arith;
  ay = omega arith;
  az = omega arith;
  temp = omega arith;
  gx = omega arith;
  gy = omega arith;
  gz = omega arith;
}

abbrev one_frame : Bytes
one_frame = (encode_all (still_raw ∷ []), omega arith)

same_init_example :
    let r = Device.init (client_bus short_core 3) (plain mpu) default_config one_frame in
    mpu6050_kdd_init short_core 3 default_config mpu one_frame ≡ ((r.0.0, with_client 3 r.0.1), r.1)
same_init_example = same_init short_core 3 mpu default_config one_frame

-- Blocks of zeros, as long as asked for.
zeros-All : (n : ℕ) → All (λ v. v < 256) (replicate n 0)
zeros-All zero = tt
zeros-All (suc n) = (omega arith, zeros-All n)

length-zeros : (n : ℕ) → length (replicate {A = ℕ} n 0) ≡ n
length-zeros zero = refl
length-zeros (suc n) = ap suc (length-zeros n)

zeros_fit :
    (len : ℕ) (b : List ℕ)
    → bytes (replicate len 0) ≡ bytes b
    → (length b ≤ len) × All (λ v. v < 256) b
zeros_fit len b h = rw (← bytes_inj h) (omega (arith, length-zeros len), zeros-All len)

abbrev zeros_core : I2cCore
zeros_core = record {
  State = ℕ;
  write_byte_data = λ client reg val s. (pos 0, s + 1);
  read_byte_data = λ client reg s. (pos (reg_value reg), s);
  read_i2c_block_data = λ client reg len s. (bytes (replicate len 0), s);
  write_sign = λ client reg val s. inl refl;
  read_range = λ client reg s. inr (reg_value reg, refl, reg_value-lt reg);
  block_fits = λ client reg len s b e. zeros_fit len b e;
}

zeros_core-IsComplete : IsComplete zeros_core 3
zeros_core-IsComplete reg len s b h e = omega (arith, ap length (bytes_inj e), length-zeros len)

abbrev kmalloc : ℕ → Option (List ℕ)
kmalloc n = some (replicate n 0xa5)

same_samples_example :
    mpu6050_read_fifo_samples zeros_core kmalloc
      (with_client 3 ready)
      (still_raw ∷ still_raw ∷ [])
      2
      0
    ≡ read_fifo_samples (client_bus zeros_core 3) kmalloc ready (still_raw ∷ still_raw ∷ []) 2 0
same_samples_example =
    same_samples zeros_core 3 zeros_core-IsComplete kmalloc ready (still_raw ∷ still_raw ∷ []) 2 0

short_core-IsStreaming : IsStreaming short_core 3
short_core-IsStreaming = record {
  fifo = λ (s : Bytes). s.0;
  brings = λ len s b e. rw (← bytes_inj e) (take_min (size len) s.0, drop_min (size len) s.0);
}

fetch_part_example :
    let r =
      fetch_frames short_core
        (some (replicate 14 0))
        (with_client 3 ready)
        (still_raw ∷ [])
        1
        one_frame in
    ((is_neg r.0.0 ≡ true) × (r.0.1 ≡ still_raw ∷ []))
    ⊎ ((n : ℕ) × (n ≤ 14)
        × (r.0 ≡ (pos (n / 14), take (n / 14) (still_raw ∷ []) ++ drop (n / 14) (still_raw ∷ [])))
        × (r.1.0 ≡ drop n (encode_all (still_raw ∷ []) ++ [])))
unfolding short_core-IsStreaming
fetch_part_example =
    fetch_part short_core 3 short_core-IsStreaming ready refl (still_raw ∷ []) (still_raw ∷ [])
      (replicate 14 0) [] one_frame (still_raw-IsRaw, tt) (omega arith) (omega arith) refl refl

-- What the fetch does here: a block of eight bytes ends it, and six are left.
fetch_short :
    let r =
      fetch_frames short_core
        (some (replicate 14 0))
        (with_client 3 ready)
        (still_raw ∷ [])
        1
        one_frame in
    (r.0.0 ≡ pos 0) × (length r.1.0 ≡ 6)
unfolding fetch_frames mpu6050_read_fifo_bytes read_rounds after_block chunk_of
fetch_short = (refl, refl)

abbrev globals : {B : I2cCore} → B.State → Globals B
globals s = record {
  g_mpu6050_dev = mpu;
  g_sample_state = record {
    valid = false;
    raw = still_raw;
    fixed = record {
      ax_mg = pos 0;
      ay_mg = pos 0;
      az_mg = pos 0;
      gx_mdps = pos 0;
      gy_mdps = pos 0;
      gz_mdps = pos 0;
      temp_mdegc = pos 0;
    };
  };
  g_irq_button_state = record { last_jiffies = 0; irq_counter = 0 };
  core = s;
}

abbrev noted : I2cCore
noted = noting zeros_core

abbrev loaded : Driver noted
loaded = record { stage = unbound; globals = globals {B = noted} (0, []) }

abbrev begun : Driver noted
begun = record loaded { stage = probing 3 }

abbrev started : Driver noted
started = starts_sensor 0 3 begun

started_run : Run kmalloc loaded started
started_run = then_step (then_step stay (begins 3 refl)) (starts 0 3 refl)

started-bound : started.stage ≡ bound 3
unfolding starts_sensor init_sensor init_mpu6050 mpu6050_kdd_whoami mpu6050_kdd_init
    mpu6050_kdd_reset mpu6050_write_reg program_registers mpu6050_kdd_reset_fifo init_if_mpu
started-bound = refl

bound_accesses_example :
    (started.globals.g_mpu6050_dev.client ≡ some 3)
    × Through 3 started.globals.core
        (mpu6050_irq_thread noted kmalloc still_raw started.globals).1.core
    × Through 3 started.globals.core (remove_sensor noted started.globals).1.core
bound_accesses_example =
    bound_accesses zeros_core kmalloc 3 still_raw (refl, refl, refl) started_run started-bound

started-initialized : started.globals.g_mpu6050_dev.initialized ≡ true
unfolding starts_sensor init_sensor init_mpu6050 mpu6050_kdd_whoami mpu6050_kdd_init
    mpu6050_kdd_reset mpu6050_write_reg program_registers mpu6050_kdd_reset_fifo init_if_mpu
started-initialized = refl

stale_client_example :
    (f : Driver noted) × Run kmalloc loaded f
    × (f.stage ≡ probing 4)
    × ((k : ℕ) × ((mpu6050_irq_thread noted kmalloc still_raw f.globals).1.core.1
          ≡ f.globals.core.1 ++ (3 ∷ replicate k 3)))
stale_client_example =
    stale_client zeros_core kmalloc 3 4 still_raw (refl, refl, refl) started_run started-bound
      started-initialized

-- The sensor answers and can be set up, but an unset variable decides when it does not.
abbrev misc_calls : MiscCalls
misc_calls = record {
  irq0 = pos 30;
  request0_ret = pos 0;
  irq1 = pos 31;
  request1_ret = pos 0;
  misc_ret = pos 0;
  junk = 0;
}

probe_misc_outcome_example :
    let g = globals {B = short_core} one_frame in
    let r = probe_misc misc_calls 3 (fresh short_core g) in
    (r.1.misc_registered ≡ true)
    × (is_zero r.0 ≡ is_zero (init_sensor short_core 0 3 g).0)
    × ((is_zero r.0 ≡ false)
        ⊎ Starts short_core 0 (identity short_core 3 g) r.1.globals.g_mpu6050_dev.initialized)
    × ((remove_misc r.1).misc_registered ≡ false)
probe_misc_outcome_example =
    probe_misc_outcome short_core misc_calls 3 (globals {B = short_core} one_frame)
