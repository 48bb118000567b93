-- ===== src/Server/Accept/Main/Startup.antt =====
-- What main holds when it listens, and when it has returned.
use linux_device_drivers_hw.Base.{
  ℕ, ◌+◌, ◌-◌, ◌≤◌, ◌≡◌, ◌⊎◌, inl, inr, refl, ◌&&◌, Option, ℤ, pos, negsuc, arith, Bool-cases,
}
use linux_device_drivers_hw.Server.Config.{ServerConfig, Scans, start_config}
use linux_device_drivers_hw.Server.Memory.{
  null, Memory, init_shared_memory, cleanup_shared_memory, init-cleanup,
}
use linux_device_drivers_hw.Server.Accept.Main.{
  Calls, Started, exits, listening, open_pipe, after_init, startup, shutdown,
}

-- What open_pipe leaves, when it does not come to listen.
open_pipe_lem :
    (k : Calls) (config : ServerConfig) (m : Memory)
    → ((status : ℤ) × (fds : ℕ) × (open_pipe k config m ≡ exits status (record m { fds = fds }))
        × ((status ≡ pos 1) ⊎ (status ≡ negsuc 0))
        × (fds ≤ m.fds + 2))
      ⊎ (open_pipe k config m ≡ listening config (record m { fds = m.fds + 3 }))
unfolding open_pipe
open_pipe_lem k config m = elim (Bool-cases k.pipe_ok) [
  | inr a ↦ inl (pos 1, m.fds, rw a refl, inl refl, omega arith)
  | inl a ↦ elim (Bool-cases k.flags_ok) [
    | inr b ↦ inl (pos 1, m.fds + 2, rw (a, b) refl, inl refl, omega arith)
    | inl b ↦ elim (Bool-cases k.socket_ok) [
      | inr c ↦ inl (negsuc 0, m.fds + 2, rw (a, b, c) refl, inr refl, omega arith)
      | inl c ↦ elim (Bool-cases (k.bind_ok && k.listen_ok)) [
        | inr d ↦ inl (negsuc 0, m.fds + 2, ground arith, inr refl, omega arith)
        | inl d ↦ inr (ground arith)
      ]
    ]
  ]
]

cleanup-fds :
    (m : Memory) (x : ℕ)
    → cleanup_shared_memory (record m { fds = x }) ≡ record (cleanup_shared_memory m) { fds = x }
unfolding cleanup_shared_memory
cleanup-fds m x = ground arith

-- main has returned in front of its loop, or listens with all that shutdown gives back.
abbrev pub Returned : Memory → Started → Type 0
Returned m o =
    (status : ℤ) × (t : Memory) × (o ≡ exits status t)
    × ((status ≡ pos 1) ⊎ (status ≡ negsuc 0))
    × (cleanup_shared_memory t ≡ record m { fds = t.fds })
    × (t.fds ≤ m.fds + 2)

abbrev pub Listens : Memory → ServerConfig → Started → Type 0
Listens m config o =
    (t : Memory) × (o ≡ listening config t)
    × (t.fds ≡ m.fds + 3)
    × (t.maps ≡ m.maps + 1)
    × (t.sems ≡ m.sems + 1)
    × (shutdown t ≡ (pos 0, m))

init_failed :
    (k : Calls) (config : ServerConfig) (m t : Memory) (status : ℤ)
    → status ≡ negsuc 0
    → cleanup_shared_memory t ≡ m
    → t.fds ≡ m.fds
    → Returned m (after_init k config (status, t))
unfolding after_init
init_failed k config m t status bad clean fds =
    (pos 1, t, rw bad refl, inl refl, ground arith, omega arith)

cleanup-cleanup : (m t : Memory) → cleanup_shared_memory t ≡ m → cleanup_shared_memory m ≡ m
unfolding cleanup_shared_memory
cleanup-cleanup m t h = ground arith

after_init_lem :
    (k : Calls) (config : ServerConfig) (m t : Memory) (status : ℤ)
    → status ≡ pos 0
    → cleanup_shared_memory t ≡ m
    → t.fds ≡ m.fds
    → t.maps ≡ m.maps + 1
    → t.sems ≡ m.sems + 1
    → Returned m (after_init k config (status, t))
      ⊎ Listens m config (after_init k config (status, t))
unfolding after_init shutdown
after_init_lem k config m t status done clean fds maps sems = elim (Bool-cases k.reader_ok) [
  | inr b ↦ inl (
    pos 1,
    cleanup_shared_memory t,
    rw (done, b) refl,
    inl refl,
    ground (arith, cleanup-cleanup m t),
    ground arith,
  )
  | inl b ↦ elim (open_pipe_lem k config t) [
    | inl (st, n, ran, st_is, below) ↦ inl (
      st,
      record t { fds = n },
      rw (done, b) ran,
      st_is,
      ground (arith, cleanup-fds t n),
      omega arith,
    )
    | inr ran ↦ inr (
      record t { fds = t.fds + 3 },
      rw (done, b) ran,
      omega arith,
      maps,
      sems,
      ground (arith, cleanup-fds t (t.fds + 3 - 1 - 1 - 1)),
    )
  ]
]

-- From a process that holds no shared memory, main either returns before its loop, with the status
-- 1 or -1, and holds at most two descriptors and what cleanup_shared_memory would give back; or it
-- listens, with one mapping, one semaphore and three descriptors, and behind its loop it returns 0
-- with all of them given back.
pub startup-shutdown :
    (k : Calls) (file : Option Scans) (c : ServerConfig) (m : Memory)
    → m.shared_data ≡ null
    → m.sem ≡ null
    → Returned m (startup k file c m) ⊎ Listens m (start_config file c) (startup k file c m)
unfolding startup
startup-shutdown k file c m h e =
    let (outcome, fds, clean) = init-cleanup k.shm_ok k.mmap_ok k.sem_ok m h e in
    let (status, t) = init_shared_memory k.shm_ok k.mmap_ok k.sem_ok m in
    elim outcome [
      | inr (bad, maps, sems) ↦ inl (init_failed k (start_config file c) m t status bad clean fds)
      | inl (done, maps, sems) ↦
          after_init_lem k (start_config file c) m t status done clean fds maps sems
    ]
