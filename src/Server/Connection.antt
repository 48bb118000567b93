-- ===== src/Server/Connection.antt =====
-- conn_handler: a connection from its first byte to its close. What the calls of the system report
-- comes with the client; a descriptor is a number, and a list holds those that are open.
pub mod Release
pub mod Answers
use linux_device_drivers_hw.Base.{
  ℕ, ◌-◌, Bool, true, false, not, List, [], ◌∷◌, ◌++◌, Option, none, some, if◌then◌else◌, ◌==◌,
  Text, codes, take,
}
use linux_device_drivers_hw.Producer.{Floats, SampleFloat}
use linux_device_drivers_hw.Server.Cache.{CachedData, get_cached_data}
use linux_device_drivers_hw.Server.Respond.{
  Route, root, json, events, not_found, route_of, request_path, page, missing_page, json_text,
  root_head, json_head, missing_head, reply,
}
use linux_device_drivers_hw.Server.Stream.{Round, Event, sse_loop}

-- What the process holds: g_active_connections, the open descriptors, the blocks that malloc gave.
pub record Process : Type 0 where
  pub active_connections : ℕ
  pub fds : List ℕ
  pub blocks : ℕ

-- close()
unfoldable pub closed : ℕ → List ℕ → List ℕ
closed fd [] = []
closed fd (f ∷ fs) = if f == fd then fs else f ∷ closed fd fs

unfoldable pub close : ℕ → Process → Process
close fd p = record p { fds = closed fd p.fds }

-- conn_active_dec_cleanup, which every way out runs.
unfoldable pub conn_active_dec_cleanup : Process → Process
conn_active_dec_cleanup p = record p { active_connections = p.active_connections - 1 }

-- What the calls for one client report: the request that recv() brings, if it brings any; the cache
-- and the time at the request; whether send() takes a header whole, and how many bytes of a body it
-- takes, none when it fails; whether it takes the headers of a stream, and the retry line; the
-- descriptor of epoll_create1, if it gives one, and whether epoll_ctl succeeds; and the rounds of a
-- stream.
pub record Client (F : Floats) : Type 0 where
  pub request : Option Text
  pub cache : CachedData F
  pub now : ℕ
  pub header_sent : Bool
  pub body_taken : ℕ
  pub stream_sent : Bool
  pub retry_sent : Bool
  pub epoll_fd : Option ℕ
  pub ctl_ok : Bool
  pub rounds : List (Round F)

unfoldable pub stream_header : Text
stream_header =
    codes "HTTP/1.1 200 OK\r\n"
    ++ codes "Content-Type: text/event-stream; charset=utf-8\r\n"
    ++ codes "Cache-Control: no-cache, no-transform\r\n"
    ++ codes "Connection: keep-alive\r\n"
    ++ codes "Access-Control-Allow-Origin: *\r\n"
    ++ codes "X-Accel-Buffering: no\r\n"
    ++ codes "\r\n"

unfoldable pub retry_line : Text
retry_line = codes "retry: 100\n\n"

-- A handler's end: what the client has been sent, in order, without a header that is cut short, and
-- the process.
abbrev pub Outcome : Type 0
Outcome = List Text × Process

unfoldable pub event_texts : List Event → List Text
event_texts [] = []
event_texts (e ∷ es) = e.text ∷ event_texts es

-- The header and then the body, which is sent if the header went out whole. The result of the second
-- send() is not looked at: the client gets as much of the body as it takes.
unfoldable pub send_reply : Bool → ℕ → ℕ → Text × Text → Process → Outcome
send_reply sent taken fd (header, body) p =
    (if sent then header ∷ take taken body ∷ [] else [], close fd p)

module _ (F : Floats) (float_text : F.Float → Text) where
  -- The end of the stream closes both descriptors.
  unfoldable pub stream_end : ℕ → ℕ → Process → Option (List Event) → Option Outcome
  stream_end epfd fd p none = none
  stream_end epfd fd p (some es) =
      some (stream_header ∷ retry_line ∷ event_texts es, close fd (close epfd p))

  -- The stream with its epoll descriptor open, from epoll_ctl on.
  unfoldable pub attached : ℕ → ℕ → Client F → Process → Option Outcome
  unfolding stream_end
  attached epfd fd c p =
      if c.ctl_ok
      then stream_end epfd fd p (sse_loop F float_text c.rounds 0)
      else some (stream_header ∷ retry_line ∷ [], close fd (close epfd p))

  -- The stream, from epoll_create1 on.
  unfoldable pub watch : Option ℕ → ℕ → Client F → Process → Option Outcome
  unfolding attached
  watch none fd c p = some (stream_header ∷ retry_line ∷ [], close fd p)
  watch (some epfd) fd c p = attached epfd fd c (record p { fds = epfd ∷ p.fds })

  -- The route /events.
  unfoldable serve_events : ℕ → Client F → Process → Option Outcome
  unfolding watch
  serve_events fd c p =
      if not c.stream_sent
      then some ([], close fd p)
      else if not c.retry_sent
      then some (stream_header ∷ [], close fd p)
      else watch c.epoll_fd fd c p

  -- The routes.
  unfoldable pub serve : Route → ℕ → Client F → Process → Option Outcome
  unfolding serve_events send_reply
  serve root fd c p = some (send_reply c.header_sent c.body_taken fd (reply root_head page) p)
  serve json fd c p =
      let both = get_cached_data c.cache in
      some (
        send_reply c.header_sent c.body_taken fd
          (reply json_head (json_text F float_text both.0 both.1 c.now)) p)
  serve events fd c p = serve_events fd c p
  serve not_found fd c p =
      some (send_reply c.header_sent c.body_taken fd (reply missing_head missing_page) p)

  unfoldable pub serve_path : Option Text → ℕ → Client F → Process → Option Outcome
  serve_path none fd c p = some ([], close fd p)
  serve_path (some path) fd c p = serve (route_of path) fd c p

  unfoldable pub serve_request : Option Text → ℕ → Client F → Process → Option Outcome
  unfolding serve_path
  serve_request none fd c p = some ([], close fd p)
  serve_request (some request) fd c p = serve_path (request_path request) fd c p

  unfoldable pub leave_thread : Option Outcome → Option Outcome
  leave_thread none = none
  leave_thread (some (sent, p)) = some (sent, conn_active_dec_cleanup p)

  -- conn_handler on the block that holds the client's descriptor, or on NULL; `none` while its
  -- stream goes on.
  unfoldable pub conn_handler : Option ℕ → Client F → Process → Option Outcome
  unfolding serve_request leave_thread
  conn_handler none c p = leave_thread (some ([], p))
  conn_handler (some fd) c p =
      leave_thread (serve_request c.request fd c (record p { blocks = p.blocks - 1 }))
