-- ===== src/Server/Connection/Release.antt =====
-- What conn_handler gives back.
use linux_device_drivers_hw.Base.{
  ℕ, ◌-◌, true, not, ◌≡◌, inl, inr, refl, List, [], ◌∷◌, Option, none, some, arith, if_keeps,
  Bool-cases, Option-cases, ◌==◌, Text,
}
use linux_device_drivers_hw.Producer.{Floats}
use linux_device_drivers_hw.Server.Respond.{
  Route, root, json, events, not_found, route_of, request_path,
}
use linux_device_drivers_hw.Server.Stream.{Event, sse_loop}
use linux_device_drivers_hw.Server.Stream.Return.{all_prompt, comes_to_end, stream_ends}
use linux_device_drivers_hw.Server.Connection.{
  Process, Client, Outcome, closed, close, conn_active_dec_cleanup, event_texts, stream_header,
  retry_line, stream_end, attached, watch, serve, serve_path, serve_request, conn_handler,
}

module _ (F : Floats) (float_text : F.Float → Text) where
  Closes : ℕ → Process → Option Outcome → Type 0
  Closes fd p o = (sent : List Text) × (o ≡ some (sent, close fd p))

  watch-Closes :
      (epoll_fd : Option ℕ) (fd : ℕ) (c : Client F) (p : Process)
      → all_prompt c.rounds ≡ true
      → comes_to_end c.rounds ≡ true
      → Closes fd p (watch F float_text epoll_fd fd c p)
  unfolding watch close closed Closes
  watch-Closes none fd c p h e = (_, refl)
  watch-Closes (some epfd) fd c p h e =
      let (es, ended) = stream_ends F float_text c.rounds 0 h e in
      let same : (epfd == epfd) ≡ true = ground arith in
      elim (Bool-cases c.ctl_ok) [
        | inl ok ↦ (stream_header ∷ retry_line ∷ event_texts es, rw ok (rw ended (rw same refl)))
        | inr bad ↦ (stream_header ∷ retry_line ∷ [], rw bad (rw same refl))
      ]

  serve-Closes :
      (r : Route) (fd : ℕ) (c : Client F) (p : Process)
      → all_prompt c.rounds ≡ true
      → comes_to_end c.rounds ≡ true
      → Closes fd p (serve F float_text r fd c p)
  unfolding serve Closes
  serve-Closes root fd c p h e = (_, refl)
  serve-Closes json fd c p h e = (_, refl)
  serve-Closes not_found fd c p h e = (_, refl)
  serve-Closes events fd c p h e =
      if_keeps (Closes fd p) (not c.stream_sent) (λ _. ([], refl))
        (λ _.
          if_keeps (Closes fd p) (not c.retry_sent) (λ _. (stream_header ∷ [], refl))
            (λ _. watch-Closes c.epoll_fd fd c p h e))

  serve_request-Closes :
      (request : Option Text) (fd : ℕ) (c : Client F) (p : Process)
      → all_prompt c.rounds ≡ true
      → comes_to_end c.rounds ≡ true
      → Closes fd p (serve_request F float_text request fd c p)
  unfolding serve_request Closes
  serve_request-Closes none fd c p h e = ([], refl)
  serve_request-Closes (some request) fd c p h e = elim (Option-cases (request_path request)) [
    | inl n ↦ ([], rw n refl)
    | inr (path, found) ↦ rw found (serve-Closes (route_of path) fd c p h e)
  ]

  -- When each wait of a stream is ended by its deadline at the latest and each run of its input
  -- comes to an end, and the server stops, a poll fails or the client hangs up, conn_handler
  -- returns, whatever the client asks for and whichever call fails: the client's descriptor is
  -- closed, the one of epoll too, the block is freed, and the number of active connections is one
  -- less.
  pub handler_releases :
      (fd : ℕ) (c : Client F) (p : Process)
      → all_prompt c.rounds ≡ true
      → comes_to_end c.rounds ≡ true
      → (sent : List Text) × (conn_handler F float_text (some fd) c p
          ≡ some (
            sent,
            record {
              active_connections = p.active_connections - 1;
              fds = closed fd p.fds;
              blocks = p.blocks - 1;
            },
          ))
  unfolding conn_handler close conn_active_dec_cleanup Closes
  handler_releases fd c p h e =
      let (sent, served) =
        serve_request-Closes c.request fd c (record p { blocks = p.blocks - 1 }) h e in
      (sent, rw served refl)

  -- Whatever the service does, it has closed the client's descriptor when it ends, and nothing else
  -- has changed.
  Left : ℕ → Process → List Text → Process → Option Outcome → Type 0
  Left fd p sent q o = o ≡ some (sent, q) → q ≡ close fd p

  stream_end-Left :
      (epfd fd : ℕ) (p : Process) (sent : List Text) (q : Process) (o : Option (List Event))
      → Left fd p sent q (stream_end F float_text epfd fd (record p { fds = epfd ∷ p.fds }) o)
  unfolding stream_end Left close closed
  stream_end-Left epfd fd p sent q none h = cc
  stream_end-Left epfd fd p sent q (some es) h = ground arith

  stream_end-closes :
      (epfd fd : ℕ) (p : Process) (sent : List Text) (q : Process) (o : Option (List Event))
      → stream_end F float_text epfd fd p o ≡ some (sent, q)
      → q ≡ close fd (close epfd p)
  unfolding stream_end
  stream_end-closes epfd fd p sent q none h = ground arith
  stream_end-closes epfd fd p sent q (some es) h = ground arith

  pub attached-Left :
      (epfd fd : ℕ) (c : Client F) (p : Process) (sent : List Text) (q : Process)
      → attached F float_text epfd fd c p ≡ some (sent, q)
      → q ≡ close fd (close epfd p)
  unfolding attached stream_end
  attached-Left epfd fd c p sent q h =
      if_keeps (λ o. o ≡ some (sent, q) → q ≡ close fd (close epfd p)) c.ctl_ok
        (λ _. stream_end-closes epfd fd p sent q (sse_loop F float_text c.rounds 0))
        (λ _ e. ground arith) h

  watch-Left :
      (epoll_fd : Option ℕ) (fd : ℕ) (c : Client F) (p : Process) (sent : List Text) (q : Process)
      → Left fd p sent q (watch F float_text epoll_fd fd c p)
  unfolding watch Left close closed
  watch-Left none fd c p sent q h = cc
  watch-Left (some epfd) fd c p sent q h =
      if_keeps (Left fd p sent q) c.ctl_ok
        (λ _. stream_end-Left epfd fd p sent q (sse_loop F float_text c.rounds 0))
        (λ _ e. ground arith) h

  serve-Left :
      (r : Route) (fd : ℕ) (c : Client F) (p : Process) (sent : List Text) (q : Process)
      → Left fd p sent q (serve F float_text r fd c p)
  unfolding serve Left
  serve-Left root fd c p sent q h = cc
  serve-Left json fd c p sent q h = cc
  serve-Left not_found fd c p sent q h = cc
  serve-Left events fd c p sent q h =
      if_keeps (Left fd p sent q) (not c.stream_sent) (λ _ e. cc)
        (λ _.
          if_keeps (Left fd p sent q) (not c.retry_sent) (λ _ e. cc)
            (λ _. watch-Left c.epoll_fd fd c p sent q))
        h

  serve_path-Left :
      (path : Option Text) (fd : ℕ) (c : Client F) (p : Process) (sent : List Text) (q : Process)
      → Left fd p sent q (serve_path F float_text path fd c p)
  unfolding serve_path Left
  serve_path-Left none fd c p sent q h = cc
  serve_path-Left (some path) fd c p sent q h = serve-Left (route_of path) fd c p sent q h

  pub serve_request-Left :
      (request : Option Text) (fd : ℕ) (c : Client F) (p : Process) (sent : List Text) (q : Process)
      → serve_request F float_text request fd c p ≡ some (sent, q)
      → q ≡ close fd p
  unfolding serve_request Left
  serve_request-Left none fd c p sent q h = cc
  serve_request-Left (some request) fd c p sent q h =
      serve_path-Left (request_path request) fd c p sent q h
