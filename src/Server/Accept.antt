-- ===== src/Server/Accept.antt =====
-- The main thread: the accept loop of main with its limit on connections, and what it shares with
-- the threads that it starts.
pub mod Run
pub mod Limit
pub mod Main
use linux_device_drivers_hw.Base.{
  ℕ, ◌+◌, ◌-◌, Bool, true, false, not, ◌&&◌, List, [], ◌∷◌, Option, none, some, ℤ, pos, negsuc,
  if◌then◌else◌, leb, is_pos, is_zero,
}
use linux_device_drivers_hw.Server.Config.{ServerConfig, Scans, read_config_from_file}
use linux_device_drivers_hw.Server.Connection.{Process, close, conn_active_dec_cleanup}

-- The server: its configuration, what the process holds, and its handler threads: the clients of those
-- that have not yet taken over the block with the descriptor, of those that serve, and of those that
-- stream, with their epoll descriptors, and the number of threads that have closed all of theirs and
-- have not given their slot back.
pub record Server : Type 0 where
  pub config : ServerConfig
  pub process : Process
  pub starting : List ℕ
  pub serving : List ℕ
  pub watching : List (ℕ × ℕ)
  pub leaving : ℕ

-- SIGUSR2, as often as it comes: each reads the configuration file as it is then.
unfoldable pub reloads : List (Option Scans) → ServerConfig → ServerConfig
reloads [] c = c
reloads (file ∷ files) c = reloads files (read_config_from_file file c).1

-- What select() reports. After a signal: for each read of the pipe that returns, whether it brings
-- bytes. For a client at the door: whether malloc() gives a block, the descriptor that accept()
-- gives, if it gives one, the reloads of the configuration between the first and the second time that
-- its limit is read, and between the second and the third, and whether pthread_create() succeeds.
pub data Wakeup : Type 0 where
  interrupted : Wakeup
  failed : Wakeup
  signalled : List Bool → Wakeup
  nothing : Wakeup
  knock : Bool → Option ℕ → List (Option Scans) → List (Option Scans) → Bool → Wakeup

-- The loop that drains the pipe has ended. The end that is read blocks: a read with no byte to come
-- does not return until another signal comes.
unfoldable pub drained : List Bool → Bool
drained [] = false
drained (more ∷ reads) = if more then drained reads else true

-- `active_connections >= max_connnections`
unfoldable pub reaches : ℤ → ℕ → Bool
reaches (pos m) active = leb m active
reaches (negsuc m) active = true

-- The limit on connections, read three times, turns a client away: it is positive and reached, or it is
-- zero.
unfoldable pub turned_away : ℤ → ℤ → ℤ → ℕ → Bool
unfolding reaches
turned_away first second third active =
    if is_pos first && reaches second active then true else is_zero third

-- The client's block and descriptor are given back.
unfoldable pub reject : ℕ → Process → Process
reject fd p = let p1 = close fd p in record p1 { blocks = p1.blocks - 1 }

-- A slot is reserved and the thread is started; without a thread the slot is given back.
unfoldable pub start_handler : ℕ → Bool → Server → Server
unfolding reject
start_handler fd created s =
    let p = s.process in
    let reserved = record p { active_connections = p.active_connections + 1 } in
    if created then record s { process = reserved; starting = fd ∷ s.starting } else record s {
      process =
          reject fd (record reserved { active_connections = reserved.active_connections - 1 });
    }

-- An accepted client; the number of connections is read once, in front of the three reads of the limit.
unfoldable pub admit : ℕ → List (Option Scans) → List (Option Scans) → Bool → Server → Server
unfolding start_handler turned_away reject reloads
admit fd second third created s =
    let c2 = reloads second s.config in
    let c3 = reloads third c2 in
    let s1 = record s { config = c3 } in
    if turned_away s.config.max_connections c2.max_connections c3.max_connections
      s.process.active_connections
    then record s1 { process = reject fd s.process }
    else start_handler fd created s1

-- A client at the door. The descriptor of accept() is open, the block is malloc()'s.
unfoldable welcome :
    Bool → Option ℕ → List (Option Scans) → List (Option Scans) → Bool → Server → Server
unfolding admit
welcome false fd second third created s = s
welcome true none second third created s =
    let p = s.process in
    let p1 = record p { blocks = p.blocks + 1 } in
    record s { process = record p1 { blocks = p1.blocks - 1 } }
welcome true (some fd) second third created s =
    let p = s.process in
    admit fd second third created
      (record s { process = record p { blocks = p.blocks + 1; fds = fd ∷ p.fds } })

-- The body of the loop, when it comes to its end: whether the loop goes on, and the server.
unfoldable pub accept_round : Wakeup → Server → Bool × Server
unfolding welcome
accept_round interrupted s = (true, s)
accept_round failed s = (false, s)
accept_round (signalled reads) s = (false, s)
accept_round nothing s = (true, s)
accept_round (knock has_block fd second third created) s =
    (true, welcome has_block fd second third created s)
