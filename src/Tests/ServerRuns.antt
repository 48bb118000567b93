-- ===== src/Tests/ServerRuns.antt =====
-- The server with natural numbers in place of floats, on a few clients.
use linux_device_drivers_hw.Base.{
  ℕ, ◌+◌, ◌-◌, ◌/◌, ◌≡◌, ◌≢◌, ◌⊎◌, inl, refl, true, false, List, [], ◌∷◌, ◌++◌, none, some, pos,
  arith, Text, codes, decimal,
}
use linux_device_drivers_hw.Producer.{Floats, SampleFloat}
use linux_device_drivers_hw.Server.Config.{
  read_config_from_file, start_config, default_server_config,
}
use linux_device_drivers_hw.Server.Memory.{Memory, null}
use linux_device_drivers_hw.Server.Cache.{CachedData, Wake, wait_loop}
use linux_device_drivers_hw.Server.Cache.Waiting.{returns}
use linux_device_drivers_hw.Server.Respond.{
  request_path, route_of, word, skip_space, c_string, page, json_text, root_head, json_head,
  missing_head, missing_page,
}
use linux_device_drivers_hw.Server.Respond.RequestLine.{IsWord}
use linux_device_drivers_hw.Server.Stream.{
  Round, quiet, interrupted, Event, event_text, sse_round, sse_loop,
}
use linux_device_drivers_hw.Server.Stream.Versions.{Told, stream_tells}
use linux_device_drivers_hw.Server.Stream.Return.{stream_ends}
use linux_device_drivers_hw.Server.Connection.{
  Process, Client, close, closed, conn_handler, serve_request, attached, stream_header, retry_line,
  conn_active_dec_cleanup,
}
use linux_device_drivers_hw.Server.Connection.Release.{handler_releases}
use linux_device_drivers_hw.Server.Connection.Answers.{Gets, handler_answers}
use linux_device_drivers_hw.Server.Accept.{
  signalled, nothing, Server, Wakeup, knock, reloads, accept_round,
}
use linux_device_drivers_hw.Server.Accept.Run.{
  Limits, unwatched, Run, stay, then_step, round, takes, opens, served, streamed, ends,
}
use linux_device_drivers_hw.Server.Accept.Limit.{IsCounted, run_limited}
use linux_device_drivers_hw.Server.Accept.Main.{
  AcceptRound, Calls, startup, accept_loop, accept_loop_ends,
}
use linux_device_drivers_hw.Server.Accept.Main.Startup.{Returned, Listens, startup-shutdown}

abbrev naturals : Floats
naturals = record { Float = ℕ; zero_float = 0; add = λ a b. a + b; divide = λ a n. a / n }

abbrev sample : ℕ → SampleFloat naturals
sample n = record { ax = n; ay = n; az = n; gx = n; gy = n; gz = n; temp = n }

abbrev cache : ℕ → CachedData naturals
cache v = record { current_sample = sample 2; average = sample 3; version = v }

-- The deadline of a wait, and a wake by a new version.
abbrev late : CachedData naturals → Wake naturals
late c = record { timed_out = true; cache = c; running = true }

abbrev woken : CachedData naturals → Wake naturals
woken c = record { timed_out = false; cache = c; running = true }

path : IsWord 255 (codes "/x")
path = record {
  some_ink = omega arith;
  fits = omega arith;
  ink = ((refl, refl), ((refl, refl), tt));
}

-- A stream that sends one event and is stopped.
abbrev rounds : List (Round naturals)
rounds =
    record { running = true; poll = interrupted }
    ∷ record { running = true; poll = quiet true (cache 0) (late (cache 7) ∷ []) 100 true }
    ∷ record { running = false; poll = interrupted }
    ∷ []

abbrev sent_events : List Event
sent_events = record { version = 7; text = event_text naturals decimal (cache 7) 100 } ∷ []

stream_tells_example : Told naturals decimal 0 rounds sent_events
unfolding sse_loop sse_round wait_loop
stream_tells_example = stream_tells naturals decimal rounds 0 sent_events refl

stream_ends_example : (es : List Event) × (sse_loop naturals decimal rounds 0 ≡ some es)
stream_ends_example = stream_ends naturals decimal rounds 0 refl refl

abbrev client : Text → Client naturals
client path = record {
  request = some (codes "GET " ++ (path ++ codes " HTTP/1.1\r\n"));
  cache = cache 7;
  now = 100;
  header_sent = true;
  body_taken = 40;
  stream_sent = true;
  retry_sent = true;
  epoll_fd = some 9;
  ctl_ok = true;
  rounds = rounds;
}

abbrev process : Process
process = record { active_connections = 2; fds = 7 ∷ 5 ∷ 3 ∷ []; blocks = 2 }

handler_releases_example :
    (sent : List Text) × (conn_handler naturals decimal (some 5) (client (codes "/events")) process
      ≡ some (
        sent,
        record { active_connections = 2 - 1; fds = closed 5 (7 ∷ 5 ∷ 3 ∷ []); blocks = 2 - 1 },
      ))
handler_releases_example =
    handler_releases naturals decimal 5 (client (codes "/events")) process refl refl

handler_answers_example :
    let o = conn_handler naturals decimal (some 5) (client (codes "/json")) process in
    ((codes "/json" ≡ codes "/") × Gets naturals decimal 40 5 process o root_head page)
    ⊎ (((codes "/json" ≡ codes "/json")
          × Gets naturals decimal 40 5 process o json_head
              (json_text naturals decimal (sample 2) (sample 3) 100))
        ⊎ ((codes "/json" ≡ codes "/events")
            ⊎ ((codes "/json" ≢ codes "/")
                × (codes "/json" ≢ codes "/json")
                × (codes "/json" ≢ codes "/events")
                × Gets naturals decimal 40 5 process o missing_head missing_page)))
unfolding request_path word skip_space c_string decimal
handler_answers_example =
    handler_answers naturals decimal 5 (client (codes "/json")) process
      (codes "GET " ++ (codes "/json" ++ codes " HTTP/1.1\r\n")) (codes "/json") refl refl
      (omega arith) (omega arith) (omega arith) refl

-- A server that takes two clients, streams to one, serves the other and turns a third away meanwhile,
-- and takes another one when a slot is free again.
abbrev idle : Server
idle = record {
  config = record { max_connections = pos 2; backlog = pos 5; port = pos 3737 };
  process = record { active_connections = 0; fds = 3 ∷ []; blocks = 0 };
  starting = [];
  serving = [];
  watching = [];
  leaving = 0;
}

abbrev silent : Client naturals
silent = record (client []) { request = none; epoll_fd = none }

abbrev streaming : Client naturals
streaming = client (codes "/events")

abbrev busy : Server
busy = record idle {
  process = record { active_connections = 2; fds = 9 ∷ 5 ∷ 3 ∷ []; blocks = 0 };
  watching = (5, 9) ∷ [];
  leaving = 1;
}

abbrev left : Server
left = record idle {
  process = record { active_connections = 2; fds = 8 ∷ 3 ∷ []; blocks = 1 };
  starting = 8 ∷ [];
  leaving = 1;
}

abbrev knocks : ℕ → Wakeup
knocks fd = knock true (some fd) [] [] true

two : Limits 2 idle.config
two = (2, refl, omega arith)

busy_run : Run naturals decimal 2 idle busy
unfolding accept_round serve_request close closed reloads request_path word skip_space c_string
    route_of
busy_run =
    let r1 = then_step (stay two) (round (knocks 5)) (two, two, inl refl) two in
    let r2 = then_step r1 (takes 5 (omega arith)) tt two in
    let r3 = then_step r2 (round (knocks 6)) (two, two, inl refl) two in
    let r4 = then_step r3 (takes 6 (omega arith)) tt two in
    let r5 =
      then_step r4
        (opens 5 9 streaming (omega arith)
          (
            codes "GET " ++ (codes "/events" ++ codes " HTTP/1.1\r\n"),
            codes "/events",
            refl,
            refl,
            refl,
            refl,
            refl,
          )
          refl)
        tt two in
    let r6 = then_step r5 (round (knocks 7)) (two, two, inl refl) two in
    then_step r6
      (served 6 silent [] (record { active_connections = 2; fds = 9 ∷ 5 ∷ 3 ∷ []; blocks = 0 })
        (omega arith) refl refl)
      tt two

run : Run naturals decimal 2 idle left
unfolding accept_round attached close closed reloads unwatched conn_active_dec_cleanup
run =
    let closing : Process = record { active_connections = 2; fds = 3 ∷ []; blocks = 0 } in
    let r1 =
      then_step busy_run
        (streamed 5 9 (record streaming { ctl_ok = false }) (stream_header ∷ retry_line ∷ [])
          closing (omega arith) refl)
        tt two in
    let r2 = then_step r1 (ends 1 refl) tt two in
    then_step r2 (round (knocks 8)) (two, two, inl refl) two

run_limited_example : IsCounted (3 ∷ []) 2 left
run_limited_example = run_limited naturals decimal 2 idle left run refl refl refl refl refl refl

abbrev all_ok : Calls
all_ok = record {
  shm_ok = true;
  mmap_ok = true;
  sem_ok = true;
  reader_ok = true;
  pipe_ok = true;
  flags_ok = true;
  socket_ok = true;
  bind_ok = true;
  listen_ok = true;
}

abbrev no_memory : Memory
no_memory = record { shared_data = null; sem = null; fds = 3; maps = 0; sems = 0 }

startup-shutdown_example :
    Returned no_memory (startup all_ok none idle.config no_memory)
    ⊎ Listens no_memory
        (record { max_connections = pos 10; backlog = pos 5; port = pos 3737 })
        (startup all_ok none idle.config no_memory)
unfolding start_config read_config_from_file default_server_config
startup-shutdown_example = startup-shutdown all_ok none idle.config no_memory refl refl

-- A signal whose byte is taken out of the pipe, and no further read that returns.
abbrev one_byte : List AcceptRound
one_byte =
    record { running = true; others = λ s. s; wakeup = knock true none [] [] true }
    ∷ record { running = true; others = λ s. s; wakeup = signalled (true ∷ []) }
    ∷ record { running = false; others = λ s. s; wakeup = nothing }
    ∷ []

accept_loop_ends_example : returns (accept_loop one_byte idle) ≡ false
accept_loop_ends_example = accept_loop_ends one_byte idle
