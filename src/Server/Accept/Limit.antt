-- ===== src/Server/Accept/Limit.antt =====
-- The number of connections is counted right and stays within the limit.
use linux_device_drivers_hw.Base.{
  ℕ, ◌+◌, ◌≤◌, ◌<◌, Bool, true, false, ◌≡◌, ◌⊎◌, inl, inr, refl, List, [], ◌∷◌, Option, none, some,
  ℤ, pos, arith, if◌then◌else◌, if_keeps, ◌==◌, Text, length, is_pos,
}
use linux_device_drivers_hw.Producer.{Floats}
use linux_device_drivers_hw.Server.Config.{Scans}
use linux_device_drivers_hw.Server.Connection.{Process, closed, close, conn_active_dec_cleanup}
use linux_device_drivers_hw.Server.Connection.Release.{serve_request-Left, attached-Left}
use linux_device_drivers_hw.Server.Accept.{
  Server, Wakeup, interrupted, failed, signalled, nothing, knock, reloads, turned_away, reject,
  start_handler, admit, accept_round,
}
use linux_device_drivers_hw.Server.Accept.Run.{
  count, freed, unwatched, streams, Steady, Step, round, takes, opens, served, streamed, ends,
  reload, Held, Run, stay, then_step,
}

closed-count :
    (f x : ℕ) (fs : List ℕ)
    → 0 < count f fs
    → count x (closed f fs) + (if f == x then 1 else 0) ≡ count x fs
unfolding closed
closed-count f x [] h = absurd (omega arith)
closed-count f x (g ∷ fs) h = ground (arith, closed-count f x fs)

closed-length : (f : ℕ) (fs : List ℕ) → 0 < count f fs → length (closed f fs) + 1 ≡ length fs
unfolding closed
closed-length f [] h = absurd (omega arith)
closed-length f (g ∷ fs) h = ground (arith, closed-length f fs)

-- How often a descriptor stands in the pairs of the streams that go on.
abbrev held : ℕ → List (ℕ × ℕ) → ℕ
held x [] = 0
held x ((f, e) ∷ ws) = (if f == x then 1 else 0) + (if e == x then 1 else 0) + held x ws

unwatched-held :
    (fd epfd x : ℕ) (ws : List (ℕ × ℕ))
    → 0 < streams fd epfd ws
    → held x (unwatched fd epfd ws) + (if fd == x then 1 else 0) + (if epfd == x then 1 else 0)
      ≡ held x ws
unfolding unwatched
unwatched-held fd epfd x [] h = absurd (omega arith)
unwatched-held fd epfd x ((f, e) ∷ ws) h = ground (arith, unwatched-held fd epfd x ws)

unwatched-length :
    (fd epfd : ℕ) (ws : List (ℕ × ℕ))
    → 0 < streams fd epfd ws
    → length (unwatched fd epfd ws) + 1 ≡ length ws
unfolding unwatched
unwatched-length fd epfd [] h = absurd (omega arith)
unwatched-length fd epfd ((f, e) ∷ ws) h = ground (arith, unwatched-length fd epfd ws)

-- Every slot belongs to a thread, every block to one that has not taken its descriptor over, every
-- descriptor beside those at the start to a client whose service has not ended, a stream that goes on
-- having two, and the slots are within the limit m.
pub record IsCounted (base : List ℕ) (m : ℕ) (s : Server) : Type 0 where
  pub slots :
      s.process.active_connections
      ≡ length s.starting + length s.serving + length s.watching + s.leaving
  pub blocks : s.process.blocks ≡ length s.starting
  pub limit : s.process.active_connections ≤ m
  pub fds :
      (x : ℕ)
      → count x s.process.fds
        ≡ count x base + count x s.starting + count x s.serving + held x s.watching

-- An accepted client with its descriptor and block, in front of the test of the limit.
abbrev at_door : ℕ → Server → Server
at_door fd s =
    let p = s.process in record s { process = record p { blocks = p.blocks + 1; fds = fd ∷ p.fds } }

module _ (base : List ℕ) (m : ℕ) where
  -- A client that is turned away leaves the server as it was.
  rejected :
      (fd : ℕ) (s : Server) (p : Process)
      → IsCounted base m s
      → p.active_connections ≡ s.process.active_connections
      → p.blocks ≡ s.process.blocks + 1
      → p.fds ≡ fd ∷ s.process.fds
      → IsCounted base m (record s { process = reject fd p })
  unfolding reject close closed
  rejected fd s p v a b f = record {
    slots = ground (arith, v.slots);
    blocks = ground (arith, v.blocks);
    limit = ground (arith, v.limit);
    fds = λ x. ground (arith, v.fds x);
  }

  start_handler-IsCounted :
      (fd : ℕ) (created : Bool) (s : Server)
      → IsCounted base m s
      → s.process.active_connections < m
      → IsCounted base m (start_handler fd created (at_door fd s))
  unfolding start_handler
  start_handler-IsCounted fd true s v l = record {
    slots = omega (arith, v.slots);
    blocks = omega (arith, v.blocks);
    limit = omega arith;
    fds = λ x. omega (arith, v.fds x);
  }
  start_handler-IsCounted fd false s v l = rejected fd s _ v (omega arith) refl refl

  not_turned_away :
      (first second third : ℤ) (k active : ℕ)
      → second ≡ pos k
      → k ≤ m
      → (is_pos first ≡ true) ⊎ (third ≡ pos 0)
      → turned_away first second third active ≡ false
      → active < m
  unfolding turned_away
  not_turned_away first second third k active at below (inl p) h = ground arith
  not_turned_away first second third k active at below (inr z) h = ground arith

  admit-IsCounted :
      (fd : ℕ) (second third : List (Option Scans)) (created : Bool) (s : Server)
      → Steady m s.config (knock true (some fd) second third created)
      → IsCounted base m s
      → IsCounted base m (admit fd second third created (at_door fd s))
  unfolding admit
  admit-IsCounted fd second third created s ((k, at, below), l, z) v =
      let c2 = reloads second s.config in
      let c3 = reloads third c2 in
      let s1 = record s { config = c3 } in
      let v1 : IsCounted base m s1 = record {
        slots = v.slots;
        blocks = v.blocks;
        limit = v.limit;
        fds = v.fds;
      } in
      if_keeps (IsCounted base m)
        (turned_away s.config.max_connections c2.max_connections c3.max_connections
          s.process.active_connections)
        (λ _. rejected fd s1 (at_door fd s).process v1 refl refl refl)
        (λ free. start_handler-IsCounted fd created s1 v1 (
          not_turned_away s.config.max_connections c2.max_connections c3.max_connections k
            s.process.active_connections at below z free))

  accept_round-IsCounted :
      (w : Wakeup) (s : Server)
      → Steady m s.config w
      → IsCounted base m s
      → IsCounted base m (accept_round w s).1
  unfolding accept_round
  accept_round-IsCounted interrupted s l v = v
  accept_round-IsCounted failed s l v = v
  accept_round-IsCounted (signalled reads) s l v = v
  accept_round-IsCounted nothing s l v = v
  accept_round-IsCounted (knock false fd second third created) s l v = v
  accept_round-IsCounted (knock true none second third created) s l v = record {
    slots = v.slots;
    blocks = omega (arith, v.blocks);
    limit = v.limit;
    fds = v.fds;
  }
  accept_round-IsCounted (knock true (some fd) second third created) s l v =
      admit-IsCounted fd second third created s l v

  takes-IsCounted :
      (s : Server) (fd : ℕ)
      → 0 < count fd s.starting
      → IsCounted base m s
      → IsCounted base m (record s {
        process = freed s.process;
        starting = closed fd s.starting;
        serving = fd ∷ s.serving;
      })
  takes-IsCounted s fd h v = record {
    slots = omega (arith, v.slots, closed-length fd s.starting h);
    blocks = omega (arith, v.blocks, closed-length fd s.starting h);
    limit = v.limit;
    fds = λ x. omega (arith, v.fds x, closed-count fd x s.starting h);
  }

  opens-IsCounted :
      (s : Server) (fd epfd : ℕ)
      → 0 < count fd s.serving
      → IsCounted base m s
      → IsCounted base m (record s {
        process = record (s.process) { fds = epfd ∷ s.process.fds };
        serving = closed fd s.serving;
        watching = (fd, epfd) ∷ s.watching;
      })
  opens-IsCounted s fd epfd h v = record {
    slots = omega (arith, v.slots, closed-length fd s.serving h);
    blocks = v.blocks;
    limit = v.limit;
    fds = λ x. omega (arith, v.fds x, closed-count fd x s.serving h);
  }

  served-IsCounted :
      (s : Server) (fd : ℕ) (q : Process)
      → 0 < count fd s.serving
      → q ≡ close fd s.process
      → IsCounted base m s
      → IsCounted base m
          (record s { process = q; serving = closed fd s.serving; leaving = s.leaving + 1 })
  unfolding close
  served-IsCounted s fd q h e v = record {
    slots = ground (arith, v.slots, closed-length fd s.serving h);
    blocks = ground (arith, v.blocks);
    limit = ground (arith, v.limit);
    fds = λ x. ground (
      arith,
      v.fds x,
      v.fds fd,
      closed-count fd x s.serving h,
      closed-count fd x s.process.fds (omega (arith, v.fds fd)),
    );
  }

  streams-held : (fd epfd : ℕ) (ws : List (ℕ × ℕ)) → 0 < streams fd epfd ws → 0 < held epfd ws
  streams-held fd epfd [] h = absurd (omega arith)
  streams-held fd epfd ((f, e) ∷ ws) h = ground (arith, streams-held fd epfd ws)

  -- The epoll descriptor is among those that are open, and the client's is among those that are left.
  both_open :
      (s : Server) (fd epfd : ℕ)
      → 0 < streams fd epfd s.watching
      → IsCounted base m s
      → (x : ℕ)
      → count x (closed fd (closed epfd s.process.fds))
          + (if fd == x then 1 else 0)
          + (if epfd == x then 1 else 0)
        ≡ count x s.process.fds
  both_open s fd epfd h v x =
      let some_epfd : 0 < count epfd s.process.fds =
        omega (arith, v.fds epfd, streams-held fd epfd s.watching h) in
      let some_fd : 0 < count fd (closed epfd s.process.fds) = ground (
        arith,
        v.fds fd,
        unwatched-held fd epfd fd s.watching h,
        closed-count epfd fd s.process.fds some_epfd,
      ) in
      omega (
        arith,
        closed-count epfd x s.process.fds some_epfd,
        closed-count fd x (closed epfd s.process.fds) some_fd,
      )

  streamed-IsCounted :
      (s : Server) (fd epfd : ℕ) (q : Process)
      → 0 < streams fd epfd s.watching
      → q ≡ close fd (close epfd s.process)
      → IsCounted base m s
      → IsCounted base m (record s {
        process = q;
        watching = unwatched fd epfd s.watching;
        leaving = s.leaving + 1;
      })
  unfolding close
  streamed-IsCounted s fd epfd q h e v = record {
    slots = ground (arith, v.slots, unwatched-length fd epfd s.watching h);
    blocks = ground (arith, v.blocks);
    limit = ground (arith, v.limit);
    fds = λ x.
        ground (arith, v.fds x, both_open s fd epfd h v x, unwatched-held fd epfd x s.watching h);
  }

module _ (F : Floats) (float_text : F.Float → Text) (base : List ℕ) (m : ℕ) where
  Step-IsCounted :
      {s t : Server}
      → (q : Step F float_text s t) → Held F float_text m q
      → IsCounted base m s
      → IsCounted base m t
  unfolding conn_active_dec_cleanup
  Step-IsCounted (round {s} w) l v = accept_round-IsCounted base m w s l v
  Step-IsCounted (takes {s} fd h) l v = takes-IsCounted base m s fd h v
  Step-IsCounted (opens {s} fd epfd c h w e) l v = opens-IsCounted base m s fd epfd h v
  Step-IsCounted (served {s} fd c sent p h e r) l v =
      served-IsCounted base m s fd p h
        (serve_request-Left F float_text c.request fd c s.process sent p r) v
  Step-IsCounted (streamed {s} fd epfd c sent p h r) l v =
      streamed-IsCounted base m s fd epfd p h
        (attached-Left F float_text epfd fd c s.process sent p r) v
  Step-IsCounted (ends k e) l v = record {
    slots = ground (arith, v.slots);
    blocks = v.blocks;
    limit = ground (arith, v.limit);
    fds = v.fds;
  }
  Step-IsCounted (reload file) l v = record {
    slots = v.slots;
    blocks = v.blocks;
    limit = v.limit;
    fds = v.fds;
  }

  Run-IsCounted : {s t : Server} → Run F float_text m s t → IsCounted base m s → IsCounted base m t
  Run-IsCounted (stay l) v = v
  Run-IsCounted (then_step r q held l) v = Step-IsCounted q held (Run-IsCounted r v)

-- In a run from a server without clients, in which every configuration limits the connections to m,
-- those that the test of a client reads too, and in which a limit that is zero at the first read of a
-- test is zero at its third, the number of active connections is the number of handler threads that
-- have not given their slot back, and it never exceeds m; the open descriptors are those at the start,
-- one for each client whose service has not ended, and an epoll descriptor for each stream that goes
-- on; and there are as many blocks as clients that no thread has taken over yet.
pub run_limited :
    (F : Floats) (float_text : F.Float → Text) (m : ℕ) (s t : Server)
    → Run F float_text m s t
    → s.starting ≡ []
    → s.serving ≡ []
    → s.watching ≡ []
    → s.leaving ≡ 0
    → s.process.active_connections ≡ 0
    → s.process.blocks ≡ 0
    → IsCounted s.process.fds m t
run_limited F float_text m s t r a b w c d e =
    Run-IsCounted F float_text s.process.fds m r (record {
      slots = ground arith;
      blocks = ground arith;
      limit = omega arith;
      fds = λ x. ground arith;
    })
