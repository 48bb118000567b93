-- ===== src/Server/Accept/Run.antt =====
-- The main thread and its handlers as a step relation. A handler frees the block, opens the epoll
-- descriptor of a stream, ends its service, and gives its slot back, each a step, so that the others
-- come between. The test of the limit with the reloads between its three reads, and the reservation
-- of the slot, are one step: only the main thread reserves slots, so that what other threads do
-- between them can only lower the number.
use linux_device_drivers_hw.Base.{
  ℕ, suc, ◌+◌, ◌-◌, ◌≤◌, ◌<◌, ◌≡◌, List, [], ◌∷◌, Option, some, pos, if◌then◌else◌, ◌==◌, Text, ◌⊎◌,
  ◌&&◌, true, none, is_pos,
}
use linux_device_drivers_hw.Producer.{Floats}
use linux_device_drivers_hw.Server.Config.{ServerConfig, Scans, read_config_from_file}
use linux_device_drivers_hw.Server.Connection.{
  Process, Client, closed, conn_active_dec_cleanup, serve_request, attached,
}
use linux_device_drivers_hw.Server.Respond.{events, route_of, request_path}
use linux_device_drivers_hw.Server.Accept.{
  Server, Wakeup, interrupted, failed, signalled, nothing, knock, reloads, accept_round,
}

-- How often a descriptor stands in a list.
abbrev pub count : ℕ → List ℕ → ℕ
count x [] = 0
count x (f ∷ fs) = (if f == x then 1 else 0) + count x fs

-- A configuration that limits the connections to m.
abbrev pub Limits : ℕ → ServerConfig → Type 0
Limits m c = (k : ℕ) × (c.max_connections ≡ pos k) × (k ≤ m)

-- free() of the block that held the client's descriptor.
abbrev pub freed : Process → Process
freed p = record p { blocks = p.blocks - 1 }

-- A stream that ends is no longer among those that go on.
unfoldable pub unwatched : ℕ → ℕ → List (ℕ × ℕ) → List (ℕ × ℕ)
unwatched fd epfd [] = []
unwatched fd epfd ((f, e) ∷ ws) =
    if (f == fd) && (e == epfd) then ws else (f, e) ∷ unwatched fd epfd ws

-- How often a stream with these two descriptors goes on.
abbrev pub streams : ℕ → ℕ → List (ℕ × ℕ) → ℕ
streams fd epfd [] = 0
streams fd epfd ((f, e) ∷ ws) = (if (f == fd) && (e == epfd) then 1 else 0) + streams fd epfd ws

-- The limits that the test of a client reads all hold, and one that is zero at the first read is zero at
-- the third.
abbrev pub Steady : ℕ → ServerConfig → Wakeup → Type 0
Steady m c interrupted = Unit
Steady m c failed = Unit
Steady m c (signalled reads) = Unit
Steady m c nothing = Unit
Steady m c (knock has_block fd second third created) =
    let c2 = reloads second c in
    let c3 = reloads third c2 in
    Limits m c2 × Limits m c3 × ((is_pos c.max_connections ≡ true) ⊎ (c3.max_connections ≡ pos 0))

module _ (F : Floats) (float_text : F.Float → Text) where
  -- The client gets as far as epoll_create1.
  abbrev pub Watches : Client F → Type 0
  Watches c =
      (request : Text) × (path : Text) × (c.request ≡ some request)
      × (request_path request ≡ some path)
      × (route_of path ≡ events)
      × (c.stream_sent ≡ true)
      × (c.retry_sent ≡ true)

  -- A step: a round of the main loop; a thread that takes over the descriptor and frees the block; one
  -- that opens its epoll descriptor; the end of a service that has none, and of one that has; the end
  -- of a thread; or SIGUSR2.
  pub data Step : Server → Server → Type 0 where
    round : {s : Server} (w : Wakeup) → Step s (accept_round w s).1
    takes :
        {s : Server} (fd : ℕ)
        → 0 < count fd s.starting
        → Step s (record s {
          process = freed s.process;
          starting = closed fd s.starting;
          serving = fd ∷ s.serving;
        })
    opens :
        {s : Server} (fd epfd : ℕ) (c : Client F)
        → 0 < count fd s.serving
        → Watches c
        → c.epoll_fd ≡ some epfd
        → Step s (record s {
          process = record (s.process) { fds = epfd ∷ s.process.fds };
          serving = closed fd s.serving;
          watching = (fd, epfd) ∷ s.watching;
        })
    served :
        {s : Server} (fd : ℕ) (c : Client F) (sent : List Text) (p : Process)
        → 0 < count fd s.serving
        → c.epoll_fd ≡ none
        → serve_request F float_text c.request fd c s.process ≡ some (sent, p)
        → Step s (record s { process = p; serving = closed fd s.serving; leaving = s.leaving + 1 })
    streamed :
        {s : Server} (fd epfd : ℕ) (c : Client F) (sent : List Text) (p : Process)
        → 0 < streams fd epfd s.watching
        → attached F float_text epfd fd c s.process ≡ some (sent, p)
        → Step s (record s {
          process = p;
          watching = unwatched fd epfd s.watching;
          leaving = s.leaving + 1;
        })
    ends :
        {s : Server} (k : ℕ)
        → s.leaving ≡ suc k
        → Step s (record s { process = conn_active_dec_cleanup s.process; leaving = k })
    reload :
        {s : Server} (file : Option Scans)
        → Step s (record s { config = (read_config_from_file file s.config).1 })

  -- What a step reads of the limit in its middle.
  abbrev pub Held : {s t : Server} → ℕ → Step s t → Type 0
  Held m (round {s} w) = Steady m s.config w
  Held m (takes fd h) = Unit
  Held m (opens fd epfd c h w e) = Unit
  Held m (served fd c sent p h e r) = Unit
  Held m (streamed fd epfd c sent p h r) = Unit
  Held m (ends k e) = Unit
  Held m (reload file) = Unit

  -- A run whose configurations all limit the connections to m.
  pub data Run (m : ℕ) : Server → Server → Type 0 where
    stay : {s : Server} → Limits m s.config → Run m s s
    then_step :
        {s t u : Server} → Run m s t → (q : Step t u) → Held m q → Limits m u.config → Run m s u
