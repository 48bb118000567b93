-- ===== src/Server/Cache.antt =====
-- The cached sample: the reader thread's round, get_cached_data, and the wait for a new version.
-- The mutex makes each access one step; pthread_cond_timedwait lets others run.
pub mod Deadline
pub mod Waiting
pub mod Pipeline
pub mod Published
use linux_device_drivers_hw.Base.{
  ℕ, ◌+◌, ◌-◌, ◌*◌, ◌/◌, ◌%◌, ◌^◌, Bool, true, false, not, ◌&&◌, List, [], ◌∷◌, Option, none, some,
  if◌then◌else◌, leb, ◌==◌, get_or,
}
use linux_device_drivers_hw.Producer.{buffer_size, Floats, SampleFloat, SharedData, zero_sample}

-- cached_data_t
pub record CachedData (F : Floats) : Type 0 where
  pub current_sample : SampleFloat F
  pub average : SampleFloat F
  pub version : ℕ

-- What ends one pthread_cond_timedwait, with the cache and the flag `running` as others have left
-- them by then.
pub record Wake (F : Floats) : Type 0 where
  pub timed_out : Bool
  pub cache : CachedData F
  pub running : Bool

module _ {F : Floats} where
  -- One round of data_reader_thread on mapped memory: the sample and the last slot, and the
  -- version, a uint64_t.
  unfoldable pub reader_round : SharedData F → CachedData F → CachedData F
  reader_round d c = record {
    current_sample = d.current_sample;
    average = get_or d.buffer (buffer_size - 1) (zero_sample F);
    version = (c.version + 1) % 2 ^ 64;
  }

  -- get_cached_data
  unfoldable pub get_cached_data : CachedData F → SampleFloat F × SampleFloat F
  get_cached_data c = (c.current_sample, c.average)

  -- The loop of wait_for_new_data over the wakes to come; `none` while it still waits.
  unfoldable pub wait_loop : ℕ → List (Wake F) → Bool → CachedData F → Option (CachedData F)
  wait_loop last_version [] running c =
      if (c.version == last_version) && running then none else some c
  wait_loop last_version (w ∷ ws) running c =
      let rest = wait_loop last_version ws w.running w.cache in
      if (c.version == last_version) && running
      then (if w.timed_out then some w.cache else rest)
      else some c

-- struct timespec
pub record Timespec : Type 0 where
  pub tv_sec : ℕ
  pub tv_nsec : ℕ

-- The deadline of wait_for_new_data, some milliseconds from now.
unfoldable pub deadline : ℕ → Timespec → Timespec
deadline timeout_ms now =
    let sec = now.tv_sec + timeout_ms / 1000 in
    let nsec = now.tv_nsec + timeout_ms % 1000 * 1000000 in
    if leb 1000000000 nsec
    then record { tv_sec = sec + 1; tv_nsec = nsec - 1000000000 }
    else record { tv_sec = sec; tv_nsec = nsec }
