-- ===== src/Server/Connection/Answers.antt =====
-- What the client of conn_handler gets.
use linux_device_drivers_hw.Base.{
  ℕ, ◌-◌, ◌<◌, true, false, ◌≡◌, ◌≢◌, ◌⊎◌, inl, inr, refl, ap, ◌∙◌, [], ◌∷◌, Option, some, arith,
  Bool-cases, Text, codes, length, take, power_of_ten,
}
use linux_device_drivers_hw.Producer.{Floats}
use linux_device_drivers_hw.Server.Cache.{get_cached_data}
use linux_device_drivers_hw.Server.Respond.{
  Route, root, json, events, not_found, same_text, route_of, request_path, page, missing_page,
  json_text, root_head, json_head, missing_head, header_text,
}
use linux_device_drivers_hw.Server.Respond.Whole.{IsShortText, replies_whole}
use linux_device_drivers_hw.Server.Connection.{
  Process, Client, Outcome, close, conn_active_dec_cleanup, send_reply, serve, serve_path,
  serve_request, leave_thread, conn_handler,
}

same_text-eq : (s t : Text) → same_text s t ≡ true → s ≡ t
unfolding same_text
same_text-eq [] [] h = refl
same_text-eq [] (b ∷ t) h = cc
same_text-eq (a ∷ s) [] h = cc
same_text-eq (a ∷ s) (b ∷ t) h = ground (arith, same_text-eq s t)

same_text_refl : (s : Text) → same_text s s ≡ true
unfolding same_text
same_text_refl [] = refl
same_text_refl (a ∷ s) = ground (arith, same_text_refl s)

-- A path is found at its route only.
same_text-ne : (s t : Text) → same_text s t ≡ false → s ≢ t
same_text-ne s t h e = cc (ap (λ (u : Text). same_text s u) e, same_text_refl s)

route_of_lem :
    (path : Text)
    → ((path ≡ codes "/") × (route_of path ≡ root))
      ⊎ (((path ≡ codes "/json") × (route_of path ≡ json))
          ⊎ (((path ≡ codes "/events") × (route_of path ≡ events))
              ⊎ ((path ≢ codes "/")
                  × (path ≢ codes "/json")
                  × (path ≢ codes "/events")
                  × (route_of path ≡ not_found))))
unfolding route_of
route_of_lem path = elim (Bool-cases (same_text path (codes "/"))) [
  | inl e ↦ inl (same_text-eq path (codes "/") e, rw e refl)
  | inr a ↦ elim (Bool-cases (same_text path (codes "/json"))) [
    | inl e ↦ inr (inl (same_text-eq path (codes "/json") e, rw (a, e) refl))
    | inr b ↦ elim (Bool-cases (same_text path (codes "/events"))) [
      | inl e ↦ inr (inr (inl (same_text-eq path (codes "/events") e, rw (a, b, e) refl)))
      | inr c ↦ inr (
          inr (
            inr (
              same_text-ne path (codes "/") a,
              same_text-ne path (codes "/json") b,
              same_text-ne path (codes "/events") c,
              rw (a, b, c) refl,
            )))
    ]
  ]
]

module _ (F : Floats) (float_text : F.Float → Text) where
  -- What goes out to a client, of a body as many bytes as send() takes, when its descriptor is closed
  -- after that.
  abbrev pub Gets : ℕ → ℕ → Process → Option Outcome → Text → Text → Type 0
  Gets taken fd p o head body =
      o
      ≡ some (
        header_text head (length body) ∷ take taken body ∷ [],
        record {
          active_connections = p.active_connections - 1;
          fds = (close fd p).fds;
          blocks = p.blocks - 1;
        },
      )

  routed :
      (fd : ℕ) (c : Client F) (p : Process) (request path : Text) (r : Route)
      → c.request ≡ some request
      → request_path request ≡ some path
      → route_of path ≡ r
      → conn_handler F float_text (some fd) c p
        ≡ leave_thread F float_text (serve F float_text r fd c (record p { blocks = p.blocks - 1 }))
  unfolding conn_handler serve_request serve_path
  routed fd c p request path r h k e = simp (h, k, e)

  -- A reply whose header goes out whole.
  replied :
      (fd : ℕ) (c : Client F) (p : Process) (head body : Text) (out : Text × Text)
      → c.header_sent ≡ true
      → out ≡ (header_text head (length body), body)
      → Gets c.body_taken fd p
          (leave_thread F float_text (
            some
              (send_reply c.header_sent c.body_taken fd out (record p { blocks = p.blocks - 1 }))))
          head
          body
  unfolding leave_thread send_reply close conn_active_dec_cleanup
  replied fd c p head body out w e = simp (w, e)

  -- When a request has come whose request line names a path, both samples of the cache print at
  -- most 24 characters a field, the time has at most 20 digits, and send() takes the header whole:
  -- the client of "/" gets the live page, the one of "/json" the JSON of the sample and the average
  -- in the cache at that time, and the one of a path other than these and "/events" the page for a
  -- missing path, each behind a header that announces its whole length, as many bytes of it from its
  -- beginning as the second send() takes; and conn_handler returns
  -- with the descriptor closed, the block freed and one active connection less.
  pub handler_answers :
      (fd : ℕ) (c : Client F) (p : Process) (request path : Text)
      → c.request ≡ some request
      → request_path request ≡ some path
      → IsShortText F float_text c.cache.current_sample
      → IsShortText F float_text c.cache.average
      → c.now < power_of_ten 20
      → c.header_sent ≡ true
      → let o = conn_handler F float_text (some fd) c p in
        ((path ≡ codes "/") × Gets c.body_taken fd p o root_head page)
        ⊎ (((path ≡ codes "/json")
              × Gets c.body_taken fd p o json_head
                  (json_text F float_text c.cache.current_sample c.cache.average c.now))
            ⊎ ((path ≡ codes "/events")
                ⊎ ((path ≢ codes "/")
                    × (path ≢ codes "/json")
                    × (path ≢ codes "/events")
                    × Gets c.body_taken fd p o missing_head missing_page)))
  unfolding serve get_cached_data
  handler_answers fd c p request path h k s a t w =
      let (live, missing, data_text) =
        replies_whole F float_text c.cache.current_sample c.cache.average c.now s a t in
      elim (route_of_lem path) [
        | inl (e, r) ↦
            inl (e, routed fd c p request path root h k r ∙ replied fd c p root_head page _ w live)
        | inr (inl (e, r)) ↦ inr (
            inl
              (e, routed fd c p request path json h k r ∙ replied fd c p json_head _ _ w data_text))
        | inr (inr (inl (e, r))) ↦ inr (inr (inl e))
        | inr (inr (inr (x, y, z, r))) ↦ inr (
            inr (
              inr (
                x,
                y,
                z,
                routed fd c p request path not_found h k r
                    ∙ replied fd c p missing_head missing_page _ w missing,
              )))
      ]
