-- ===== src/Server/Cache/Deadline.antt =====
-- The deadline is a normalised time.
use linux_device_drivers_hw.Base.{ℕ, ◌+◌, ◌*◌, ◌<◌, ◌≡◌, arith}
use linux_device_drivers_hw.Server.Cache.{Timespec, deadline}

-- For a normalised time and any timeout, the deadline of wait_for_new_data is a normalised time,
-- and is later by exactly the timeout.
deadline_normal :
    (timeout_ms : ℕ) (now : Timespec)
    → now.tv_nsec < 1000000000
    → let t = deadline timeout_ms now in
      (t.tv_nsec < 1000000000)
      × (t.tv_sec * 1000000000 + t.tv_nsec
          ≡ now.tv_sec * 1000000000 + now.tv_nsec + timeout_ms * 1000000)
unfolding deadline
deadline_normal timeout_ms now h = ground arith
