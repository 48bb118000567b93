-- ===== src/Server/Memory.antt =====
-- The server's hold on the shared memory and its semaphore: init_shared_memory and
-- cleanup_shared_memory.
use linux_device_drivers_hw.Base.{
  ℕ, ◌+◌, ◌-◌, Bool, not, ◌≡◌, ◌⊎◌, ℤ, pos, negsuc, arith, if◌then◌else◌,
}

-- g_shared_data and g_sem: NULL, a live object, or the value that a failed call left (MAP_FAILED,
-- SEM_FAILED, or a mapping that is gone).
pub data Handle : Type 0 where
  null : Handle
  live : Handle
  stale : Handle

-- What the process has open beside the handles.
pub record Memory : Type 0 where
  pub shared_data : Handle
  pub sem : Handle
  pub fds : ℕ
  pub maps : ℕ
  pub sems : ℕ

-- init_shared_memory, with whether shm_open, mmap and sem_open succeed.
unfoldable pub init_shared_memory : Bool → Bool → Bool → Memory → ℤ × Memory
init_shared_memory shm_ok mmap_ok sem_ok m =
    let m1 = record m { fds = m.fds + 1 } in
    let m2 = record m1 { shared_data = live; maps = m.maps + 1 } in
    let m3 = record m2 { sem = live; sems = m.sems + 1 } in
    if not shm_ok
    then (negsuc 0, m)
    else if not mmap_ok
    then (negsuc 0, record m1 { shared_data = stale; fds = m1.fds - 1 })
    else if not sem_ok
    then (
      negsuc 0,
      record m2 { shared_data = stale; sem = stale; maps = m2.maps - 1; fds = m2.fds - 1 },
    )
    else (pos 0, record m3 { fds = m3.fds - 1 })

unfoldable cleanup_map : Handle → Memory → Memory
cleanup_map null m = m
cleanup_map live m = record m { shared_data = null; maps = m.maps - 1 }
cleanup_map stale m = record m { shared_data = null }

unfoldable pub cleanup_sem : Handle → Memory → Memory
cleanup_sem null m = m
cleanup_sem live m = record m { sem = null; sems = m.sems - 1 }
cleanup_sem stale m = record m { sem = null }

-- cleanup_shared_memory
unfoldable pub cleanup_shared_memory : Memory → Memory
unfolding cleanup_map cleanup_sem
cleanup_shared_memory m = cleanup_sem m.sem (cleanup_map m.shared_data m)

-- A process that holds no shared memory holds, whatever the three calls return, one mapping and one
-- semaphore after init_shared_memory has returned 0, and neither after it has returned -1, and no
-- descriptor in either case; cleanup_shared_memory then gives back what it holds and leaves both
-- handles NULL.
pub init-cleanup :
    (shm_ok mmap_ok sem_ok : Bool) (m : Memory)
    → m.shared_data ≡ null
    → m.sem ≡ null
    → let r = init_shared_memory shm_ok mmap_ok sem_ok m in
      (((r.0 ≡ pos 0) × (r.1.maps ≡ m.maps + 1) × (r.1.sems ≡ m.sems + 1))
        ⊎ ((r.0 ≡ negsuc 0) × (r.1.maps ≡ m.maps) × (r.1.sems ≡ m.sems)))
      × (r.1.fds ≡ m.fds)
      × (cleanup_shared_memory r.1 ≡ m)
unfolding init_shared_memory cleanup_shared_memory
init-cleanup shm_ok mmap_ok sem_ok m h k = ground arith
