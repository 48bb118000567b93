-- ===== src/Server/Accept/Main.antt =====
-- main from its start to its exit: what it opens, the loop, and what it closes. What other threads
-- do before a round comes with the round.
pub mod Startup
use linux_device_drivers_hw.Base.{
  ℕ, ◌+◌, ◌-◌, ◌≤◌, Bool, true, false, not, ◌≡◌, ◌⊎◌, inl, inr, refl, ◌&&◌, ◌||◌, List, [], ◌∷◌,
  Option, none, some, ℤ, pos, negsuc, arith, if◌then◌else◌, is_zero, Bool-cases,
}
use linux_device_drivers_hw.Server.Cache.Waiting.{returns}
use linux_device_drivers_hw.Server.Config.{ServerConfig, Scans, start_config}
use linux_device_drivers_hw.Server.Memory.{
  null, Memory, init_shared_memory, cleanup_shared_memory, init-cleanup,
}
use linux_device_drivers_hw.Server.Accept.{
  Server, Wakeup, interrupted, failed, signalled, nothing, knock, drained, accept_round,
}

-- Which of the calls of main succeed.
pub record Calls : Type 0 where
  pub shm_ok : Bool
  pub mmap_ok : Bool
  pub sem_ok : Bool
  pub reader_ok : Bool
  pub pipe_ok : Bool
  pub flags_ok : Bool
  pub socket_ok : Bool
  pub bind_ok : Bool
  pub listen_ok : Bool

-- main has returned with a status, or listens.
pub data Started : Type 0 where
  exits : ℤ → Memory → Started
  listening : ServerConfig → Memory → Started

-- The socket of the server.
unfoldable open_socket : Calls → ServerConfig → Memory → Started
open_socket k config m =
    let m1 = record m { fds = m.fds + 1 } in
    if not k.socket_ok
    then exits (negsuc 0) m
    else if not (k.bind_ok && k.listen_ok)
    then exits (negsuc 0) (record m1 { fds = m1.fds - 1 })
    else listening config m1

-- The pipe that signals write to.
unfoldable pub open_pipe : Calls → ServerConfig → Memory → Started
unfolding open_socket
open_pipe k config m =
    let m1 = record m { fds = m.fds + 2 } in
    if not k.pipe_ok
    then exits (pos 1) m
    else if not k.flags_ok
    then exits (pos 1) m1
    else open_socket k config m1

-- main behind init_shared_memory.
unfoldable pub after_init : Calls → ServerConfig → ℤ × Memory → Started
unfolding open_pipe
after_init k config (status, m) =
    if not (is_zero status)
    then exits (pos 1) m
    else if not k.reader_ok
    then exits (pos 1) (cleanup_shared_memory m)
    else open_pipe k config m

-- main in front of its loop.
unfoldable pub startup : Calls → Option Scans → ServerConfig → Memory → Started
unfolding after_init
startup k file c m =
    after_init k (start_config file c) (init_shared_memory k.shm_ok k.mmap_ok k.sem_ok m)

-- main behind its loop.
unfoldable pub shutdown : Memory → ℤ × Memory
shutdown m = (pos 0, cleanup_shared_memory (record m { fds = m.fds - 1 - 1 - 1 }))

-- A round of the loop, with the flag `running` as its test reads it.
pub record AcceptRound : Type 0 where
  pub running : Bool
  pub others : Server → Server
  pub wakeup : Wakeup

-- The body comes to its end, unless it waits in a read of the pipe.
unfoldable pub completes : Wakeup → Bool
unfolding drained
completes (signalled reads) = drained reads
completes interrupted = true
completes failed = true
completes nothing = true
completes (knock has_block fd second third created) = true

-- The loop; `none` while it goes on or waits in a round.
unfoldable pub accept_loop : List AcceptRound → Server → Option Server
unfolding completes
accept_loop [] s = none
accept_loop (r ∷ rs) s =
    let (go_on, t) = accept_round r.wakeup (r.others s) in
    let rest = accept_loop rs t in
    if not r.running
    then some s
    else if not (completes r.wakeup)
    then none
    else if go_on
    then rest
    else some t

-- A read of the pipe does not bring bytes.
abbrev empties : List Bool → Bool
empties [] = false
empties (more ∷ reads) = not more || empties reads

-- What a wakeup makes of the loop: it ends, waits for ever, or goes on.
pub data Fate : Type 0 where
  ends_loop : Fate
  hangs : Fate
  goes_on : Fate

abbrev pub fate : Wakeup → Fate
fate failed = ends_loop
fate (signalled reads) = if empties reads then ends_loop else hangs
fate interrupted = goes_on
fate nothing = goes_on
fate (knock has_block fd second third created) = goes_on

-- Of the rounds, the first that decides lets the loop end.
abbrev pub stops : List AcceptRound → Bool
stops [] = false
stops (r ∷ rs) =
    not r.running || elim (fate r.wakeup) [ ends_loop ↦ true | hangs ↦ false | goes_on ↦ stops rs ]

drained-empties : (reads : List Bool) → drained reads ≡ empties reads
unfolding drained
drained-empties [] = refl
drained-empties (true ∷ reads) = drained-empties reads
drained-empties (false ∷ reads) = refl

-- One round, before rounds of which it is known whether they end.
round_ends :
    (w : Wakeup) (running more : Bool) (s t : Server) (rest : Option Server)
    → returns rest ≡ more
    → returns (
        if not running
        then some s
        else if not (completes w)
        then none
        else if (accept_round w t).0
        then rest
        else some (accept_round w t).1)
      ≡ (not running || elim (fate w) [ ends_loop ↦ true | hangs ↦ false | goes_on ↦ more ])
unfolding accept_round completes
round_ends w false more s t rest h = refl
round_ends interrupted true more s t rest h = h
round_ends failed true more s t rest h = refl
round_ends nothing true more s t rest h = h
round_ends (knock b fd second third created) true more s t rest h = h
round_ends (signalled reads) true more s t rest h = ground (arith, drained-empties reads)

-- Whatever other threads do to the server between its rounds, the loop of main ends exactly when
-- the flag is found down at one of its tests, or a select() fails, or one finds a signal and a read
-- of the pipe then brings no bytes, with no round before it that found a signal and had no such
-- read.
pub accept_loop_ends : (rs : List AcceptRound) (s : Server) → returns (accept_loop rs s) ≡ stops rs
unfolding accept_loop
accept_loop_ends [] s = refl
accept_loop_ends (r ∷ rs) s =
    let (go_on, t) = accept_round r.wakeup (r.others s) in
    round_ends r.wakeup r.running (stops rs) s (r.others s) (accept_loop rs t)
      (accept_loop_ends rs t)
