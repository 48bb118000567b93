-- ===== src/Producer.antt =====
-- server_for_mpu6050/c_server/producer.c and producer.h: the process that puts samples into shared
-- memory. Floating point is a parameter, and so is what the reads of a device file give.
pub mod Average
pub mod Files
pub mod Device
pub mod Stdio
pub mod Takes
use linux_device_drivers_hw.Base.{
  ℕ, zero, suc, ◌+◌, ◌-◌, ◌%◌, Bool, true, false, not, List, [], ◌∷◌, if◌then◌else◌, ltb, set,
  get_or, replicate,
}

-- BUFFER_SIZE
abbrev pub buffer_size : ℕ
buffer_size = 128

-- The arithmetic on float that the average uses; the divisor is a size_t.
pub record Floats : Type 1 where
  pub Float : Type 0
  pub zero_float : Float
  pub add : Float → Float → Float
  pub divide : Float → ℕ → Float

-- mpu6050_sample_float_t
pub record SampleFloat (F : Floats) : Type 0 where
  pub ax : F.Float
  pub ay : F.Float
  pub az : F.Float
  pub gx : F.Float
  pub gy : F.Float
  pub gz : F.Float
  pub temp : F.Float

-- shared_data_t
pub record SharedData (F : Floats) : Type 0 where
  pub buffer : List (SampleFloat F)
  pub current_sample : SampleFloat F
  pub count : ℕ
  pub write_index : ℕ

module _ (F : Floats) where
  abbrev pub zero_sample : SampleFloat F
  zero_sample = record {
    ax = F.zero_float;
    ay = F.zero_float;
    az = F.zero_float;
    gx = F.zero_float;
    gy = F.zero_float;
    gz = F.zero_float;
    temp = F.zero_float;
  }

  -- The seven `+=` of one round of the loop
  unfoldable pub accumulate : SampleFloat F → SampleFloat F → SampleFloat F
  accumulate avg s = record {
    ax = F.add avg.ax s.ax;
    ay = F.add avg.ay s.ay;
    az = F.add avg.az s.az;
    gx = F.add avg.gx s.gx;
    gy = F.add avg.gy s.gy;
    gz = F.add avg.gz s.gz;
    temp = F.add avg.temp s.temp;
  }

  -- The seven `/=`
  unfoldable pub divide_all : SampleFloat F → ℕ → SampleFloat F
  divide_all avg count = record {
    ax = F.divide avg.ax count;
    ay = F.divide avg.ay count;
    az = F.divide avg.az count;
    gx = F.divide avg.gx count;
    gy = F.divide avg.gy count;
    gz = F.divide avg.gz count;
    temp = F.divide avg.temp count;
  }

  -- The loop over the filled slots, with the number of rounds left and the index.
  unfoldable pub sum_from : ℕ → ℕ → List (SampleFloat F) → SampleFloat F → SampleFloat F
  sum_from zero i buffer avg = avg
  sum_from (suc left) i buffer avg =
      sum_from left (i + 1) buffer (accumulate avg (get_or buffer i zero_sample))

  -- memset(shared_data, 0, ..)
  unfoldable pub cleared : SharedData F
  cleared = record {
    buffer = replicate buffer_size zero_sample;
    current_sample = zero_sample;
    count = 0;
    write_index = 0;
  }

  -- What stands between sem_wait and sem_post.
  unfoldable pub store : SampleFloat F → SharedData F → SharedData F
  store sample d =
      let filled = set d.buffer d.write_index sample in
      let count = if ltb d.count buffer_size then d.count + 1 else d.count in
      let total = sum_from count 0 filled zero_sample in
      let avg = if ltb 0 count then divide_all total count else total in
      record {
        buffer = set filled (buffer_size - 1) avg;
        current_sample = sample;
        count = count;
        write_index = (d.write_index + 1) % buffer_size;
      }

-- What one round of the loop meets: the device cannot be opened, the stream cannot be made, one of
-- the four lines cannot be read or parsed, or all is there.
pub data Reading (F : Floats) : Type 0 where
  open_failed : Reading F
  fdopen_failed : Reading F
  line_failed : Reading F
  complete : SampleFloat F → Reading F

-- What the process has open, and the shared memory; the semaphore counts the waits that may pass.
pub record Process (F : Floats) : Type 0 where
  pub fds : ℕ
  pub maps : ℕ
  pub sems : ℕ
  pub semaphore : ℕ
  pub shared_data : SharedData F

module _ {F : Floats} where
  -- One round of `while (running)`: fclose also closes the descriptor that fdopen took.
  unfoldable pub round : Reading F → Process F → Process F
  round open_failed p = p
  round fdopen_failed p =
      let opened = record p { fds = p.fds + 1 } in record opened { fds = opened.fds - 1 }
  round line_failed p =
      let opened = record p { fds = p.fds + 1 } in record opened { fds = opened.fds - 1 }
  round (complete sample) p =
      let opened = record p { fds = p.fds + 1 } in
      let closed = record opened { fds = opened.fds - 1 } in
      let waited = record closed { semaphore = closed.semaphore - 1 } in
      let stored = record waited { shared_data = store F sample waited.shared_data } in
      record stored { semaphore = stored.semaphore + 1 }

  -- The loop until a signal comes.
  abbrev pub rounds : List (Reading F) → Process F → Process F
  rounds [] p = p
  rounds (r ∷ rs) p = rounds rs (round r p)

-- Whether shm_open, ftruncate, mmap and sem_open succeed.
pub record Opening : Type 0 where
  pub shm_open : Bool
  pub ftruncate : Bool
  pub mmap : Bool
  pub sem_open : Bool

-- main: the exit code, and what the process has open at its end.
unfoldable pub main : (F : Floats) → Opening → List (Reading F) → Process F → ℕ × Process F
main F o rs p =
    let p1 = record p { fds = p.fds + 1 } in
    let p2 = record p1 { maps = p1.maps + 1; shared_data = cleared F } in
    let p3 = rounds rs (record p2 { sems = p2.sems + 1; semaphore = 1 }) in
    if not o.shm_open
    then (1, p)
    else if not o.ftruncate
    then (1, record p1 { fds = p1.fds - 1 })
    else if not o.mmap
    then (1, record p1 { fds = p1.fds - 1 })
    else if not o.sem_open
    then (1, record p2 { maps = p2.maps - 1; fds = p2.fds - 1 })
    else (0, record p3 { sems = p3.sems - 1; maps = p3.maps - 1; fds = p3.fds - 1 })
