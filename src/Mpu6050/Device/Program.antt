-- ===== src/Mpu6050/Device/Program.antt =====
-- The configuration of the sensor as a table of register accesses, run until one fails.
use mathlib.Core.Path.{subst}
use linux_device_drivers_hw.Base.{
  ℕ, ◌%◌, true, false, ◌≡◌, refl, sym, ap, ap₂, ◌∙◌, List, [], ◌∷◌, ◌++◌, ℤ, arith, is_zero, is_neg,
  if◌then◌else◌, if_keeps, append_assoc, append-nil, Bool-cases, inl, inr,
}
use linux_device_drivers_hw.Mpu6050.Config.{Config}
use linux_device_drivers_hw.Mpu6050.Bus.{RegBus}
use linux_device_drivers_hw.Mpu6050.Device.{
  Dev, mpu_ok, mpu_err, write_reg, reset_fifo, reset, configure, init,
}

-- A step of the configuration.
pub data Cmd : Type 0 where
  put : ℕ → ℕ → Cmd
  clear_flags : Cmd

-- The steps after the reset; a register holds a byte.
abbrev pub setup : Config → List Cmd
setup cfg =
    put 0x6b 0x01
    ∷ put 0x1c (cfg.accel_scale % 256)
    ∷ put 0x1b (cfg.gyro_scale % 256)
    ∷ put 0x1a (cfg.dlpf_cfg % 256)
    ∷ put 0x19 (cfg.sample_rate_div % 256)
    ∷ put 0x23 (cfg.fifo_en % 256)
    ∷ put 0x37 (cfg.int_pin_cfg % 256)
    ∷ put 0x38 (cfg.int_enable % 256)
    ∷ clear_flags
    ∷ put 0x6a (cfg.user_ctrl % 256)
    ∷ []

abbrev pub flush : List Cmd
flush = put 0x6a 0 ∷ put 0x6a 4 ∷ put 0x6a 64 ∷ []

abbrev restart : List Cmd
restart = put 0x6b 0x80 ∷ put 0x68 7 ∷ []

-- The device as `mpu6050_kdd_init` leaves it.
abbrev scaled_dev : Dev → Config → Dev
scaled_dev dev cfg = record dev { accel_scale = cfg.accel_scale; gyro_scale = cfg.gyro_scale }

module _ (B : RegBus) where
  -- A write, with a result that is not negative as 0.
  abbrev pub wrote : ℤ × B.State → ℤ × B.State
  wrote r = (if is_neg r.0 then r.0 else mpu_ok, r.1)

  -- The steps in order, up to the first write that fails.
  abbrev pub run : Dev → List Cmd → B.State → ℤ × B.State
  run dev [] s = (mpu_ok, s)
  run dev (put reg val ∷ cs) s =
      let r = wrote (B.write dev.i2c_addr reg val s) in
      let after = run dev cs r.1 in if is_zero r.0 then after else (mpu_err, r.1)
  run dev (clear_flags ∷ cs) s = run dev cs (B.read dev.i2c_addr 0x3a s).1

  run_append :
      (dev : Dev) (cs ds : List Cmd) (s : B.State)
      → run dev (cs ++ ds) s
        ≡ (if is_zero (run dev cs s).0 then run dev ds (run dev cs s).1 else run dev cs s)
  run_append dev [] ds s = refl
  run_append dev (clear_flags ∷ cs) ds s = run_append dev cs ds _
  run_append dev (put reg val ∷ cs) ds s =
      elim (Bool-cases (is_zero (wrote (B.write dev.i2c_addr reg val s)).0)) [
        | inl z ↦ rw z (run_append dev cs ds _)
        | inr z ↦ rw z refl
      ]

  run_code :
      (dev : Dev) (cs : List Cmd) (s : B.State)
      → is_zero (run dev cs s).0 ≡ false
      → (run dev cs s).0 ≡ mpu_err
  run_code dev [] s h = absurd (ground arith)
  run_code dev (clear_flags ∷ cs) s h = run_code dev cs _ h
  run_code dev (put reg val ∷ cs) s h =
      let r = wrote (B.write dev.i2c_addr reg val s) in
      if_keeps (λ (t : ℤ × B.State). is_zero t.0 ≡ false → t.0 ≡ mpu_err) (is_zero r.0)
        (λ _ n. run_code dev cs r.1 n) (λ _ _. refl) h

  init-run :
      (dev : Dev) (cfg : Config) (s : B.State)
      → let d = scaled_dev dev cfg in
        let w = run d (restart ++ setup cfg) (run d flush s).1 in
        init B dev cfg s ≡ ((w.0, if is_zero w.0 then record d { initialized = true } else d), w.1)
  unfolding init reset reset_fifo configure write_reg
  init-run dev cfg s =
      let d = scaled_dev dev cfg in
      let t = (run d flush s).1 in
      elim (Bool-cases (is_zero (run d restart t).0)) [
        | inl z ↦ rw (run_append d restart (setup cfg) t, z) refl
        | inr z ↦ rw (run_append d restart (setup cfg) t, z, run_code d restart t z) refl
      ]

-- A bus that notes the accesses that it serves.
abbrev pub traced : RegBus → RegBus
traced B = record {
  State = B.State × List Cmd;
  write =
      λ addr reg val s. let r = B.write addr reg val s.0 in (r.0, (r.1, s.1 ++ put reg val ∷ []));
  read = λ addr reg s. let r = B.read addr reg s.0 in (r.0, (r.1, s.1 ++ clear_flags ∷ []));
  block = λ addr reg len b s. let r = B.block addr reg len b s.0 in (r.0, (r.1, s.1));
  write_sign = λ addr reg val s. B.write_sign addr reg val s.0;
  read_range = λ addr reg s. B.read_range addr reg s.0;
  block_sign = λ addr reg len b s. B.block_sign addr reg len b s.0;
  block_bytes = λ addr reg len b s. B.block_bytes addr reg len b s.0;
}

-- What a run did: a first part of the steps, noted in order, and all of them if it succeeded.
record Did (cs log : List Cmd) (code : ℤ) (log_after : List Cmd) : Type 0 where
  finished : List Cmd
  unfinished : List Cmd
  pub parts : cs ≡ finished ++ unfinished
  noted : log_after ≡ log ++ finished
  pub complete : is_zero code ≡ true → unfinished ≡ []

Did-step :
    (c : Cmd) (cs log : List Cmd) (code : ℤ) (log_after : List Cmd)
    → Did cs (log ++ c ∷ []) code log_after
    → Did (c ∷ cs) log code log_after
Did-step c cs log code log_after d = record {
  finished = c ∷ d.finished;
  unfinished = d.unfinished;
  parts = ap (λ l. c ∷ l) d.parts;
  noted = d.noted ∙ append_assoc log (c ∷ []) d.finished;
  complete = d.complete;
}

run-Did :
    (B : RegBus) (dev : Dev) (cs : List Cmd) (s : B.State) (log : List Cmd)
    → let r = run (traced B) dev cs (s, log) in Did cs log r.0 r.1.1
run-Did B dev [] s log = record {
  finished = [];
  unfinished = [];
  parts = refl;
  noted = sym (append-nil log);
  complete = λ _. refl;
}
run-Did B dev (clear_flags ∷ cs) s log =
    let r = B.read dev.i2c_addr 0x3a s in
    Did-step _ _ _ _ _ (run-Did B dev cs r.1 (log ++ clear_flags ∷ []))
run-Did B dev (put reg val ∷ cs) s log =
    let r = B.write dev.i2c_addr reg val s in
    let l = log ++ put reg val ∷ [] in
    if_keeps (λ (t : ℤ × (B.State × List Cmd)). Did (put reg val ∷ cs) log t.0 t.1.1)
      (is_zero (if is_neg r.0 then r.0 else mpu_ok))
      (λ _. Did-step _ _ _ _ _ (run-Did B dev cs r.1 l))
      (λ _. record {
        finished = put reg val ∷ [];
        unfinished = cs;
        parts = refl;
        noted = refl;
        complete = λ e. ground arith;
      })

-- The configuration has been applied: the device counts as initialised, and after a first part of
-- the flush of the FIFO the bus has served the reset and the whole setup in order.
abbrev pub IsApplied : Config → Dev → List Cmd → Type 0
IsApplied cfg dev log =
    (dev.initialized ≡ true)
    × (dev.accel_scale ≡ cfg.accel_scale)
    × (dev.gyro_scale ≡ cfg.gyro_scale)
    × ((flushed : List Cmd) × (unflushed : List Cmd) × (flush ≡ flushed ++ unflushed)
        × (log ≡ flushed ++ (restart ++ setup cfg)))

applied :
    (B : RegBus) (dev : Dev) (cfg : Config) (s : B.State)
    → let d = scaled_dev dev cfg in
      let w = run (traced B) d (restart ++ setup cfg) (run (traced B) d flush (s, [])).1 in
      is_zero w.0 ≡ true
      → IsApplied cfg (if is_zero w.0 then record d { initialized = true } else d) w.1.1
applied B dev cfg s z =
    let d = scaled_dev dev cfg in
    let t = run (traced B) d flush (s, []) in
    let f = run-Did B d flush s [] in
    let w = run-Did B d (restart ++ setup cfg) t.1.0 t.1.1 in
    rw z (
      refl,
      refl,
      refl,
      (
        f.finished,
        f.unfinished,
        f.parts,
        w.noted
            ∙ ap₂ (λ x y. x ++ y) f.noted
                (sym (w.parts ∙ ap (λ u. w.finished ++ u) (w.complete z) ∙ append-nil w.finished)),
      ),
    )

-- When `mpu6050_kdd_init` returns MPU6050_OK over a bus that notes what it serves, the device is
-- marked initialised and holds the scales asked for, and the bus has served, after a first part of
-- the three writes that flush the FIFO (whose failure is not looked at), both writes of the reset
-- and then every access of the configuration in order, its values as bytes, the read of INT_STATUS
-- included.
pub init_done :
    (B : RegBus) (dev : Dev) (cfg : Config) (s : B.State)
    → (init (traced B) dev cfg (s, [])).0.0 ≡ mpu_ok
    → let r = init (traced B) dev cfg (s, []) in IsApplied cfg r.0.1 r.1.1
init_done B dev cfg s =
    subst (λ (r : (ℤ × Dev) × (B.State × List Cmd)). r.0.0 ≡ mpu_ok → IsApplied cfg r.0.1 r.1.1)
      (sym (init-run (traced B) dev cfg (s, []))) (λ e. applied B dev cfg s (ap is_zero e))

-- When `mpu6050_kdd_init` fails, it returns MPU6050_ERR and the device is not newly marked
-- initialised.
pub init_failed :
    (B : RegBus) (dev : Dev) (cfg : Config) (s : B.State)
    → is_zero (init B dev cfg s).0.0 ≡ false
    → ((init B dev cfg s).0.0 ≡ mpu_err) × ((init B dev cfg s).0.1.initialized ≡ dev.initialized)
init_failed B dev cfg s =
    let d = scaled_dev dev cfg in
    let t = (run B d flush s).1 in
    subst
      (λ (r : (ℤ × Dev) × B.State).
        is_zero r.0.0 ≡ false → (r.0.0 ≡ mpu_err) × (r.0.1.initialized ≡ dev.initialized))
      (sym (init-run B dev cfg s)) (λ z. (run_code B d (restart ++ setup cfg) t z, rw z refl))
