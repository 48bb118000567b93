-- ===== src/Server/Stream/Return.antt =====
-- The event stream ends.
use linux_device_drivers_hw.Base.{
  ℕ, Bool, true, false, not, ◌≡◌, ◌⊎◌, inl, inr, refl, ◌&&◌, ◌||◌, List, [], ◌∷◌, Option, some,
  arith, Bool-cases, ltb, Text,
}
use linux_device_drivers_hw.Producer.{Floats}
use linux_device_drivers_hw.Server.Cache.{wait_loop}
use linux_device_drivers_hw.Server.Cache.Waiting.{timeout_comes, wait_returns, returned}
use linux_device_drivers_hw.Server.Stream.{
  Receipt, received, refused, Poll, interrupted, failed, quiet, ready, Round, Event, Next, leave,
  again, emitted, go_on, drain, ready_round, send_event, sse_round, sse_loop,
}

-- A receipt comes that is not a full buffer.
abbrev falls_short : List Receipt → Bool
falls_short [] = false
falls_short (refused ∷ rs) = true
falls_short (received n ∷ rs) = ltb n 256 || falls_short rs

drain-ends : (rs : List Receipt) → falls_short rs ≡ true → drain rs ≡ true
unfolding drain
drain-ends [] h = cc
drain-ends (refused ∷ rs) h = refl
drain-ends (received n ∷ rs) h = ground (arith, drain-ends rs)

module _ {F : Floats} where
  -- The wait of a round is ended by its deadline at the latest, and its input comes to an end.
  abbrev prompt : Poll F → Bool
  prompt (quiet running c ws timestamp sent) = timeout_comes ws
  prompt (ready hang_up readable rs) = falls_short rs
  prompt _ = true

  abbrev pub all_prompt : List (Round F) → Bool
  all_prompt [] = true
  all_prompt (r ∷ rs) = prompt r.poll && all_prompt rs

  -- The poll reports a failure or a hang-up.
  abbrev breaks : Poll F → Bool
  breaks failed = true
  breaks (ready hang_up readable rs) = hang_up
  breaks _ = false

  -- The server stops, a poll fails, or the client hangs up.
  abbrev pub comes_to_end : List (Round F) → Bool
  comes_to_end [] = false
  comes_to_end (r ∷ rs) = (not r.running || breaks r.poll) || comes_to_end rs

module _ (F : Floats) (float_text : F.Float → Text) where
  abbrev Ended : Option (List Event) → Type 0
  Ended o = (es : List Event) × (o ≡ some es)

  -- A prompt round does not wait for ever, and one that breaks leaves the loop.
  round_prompt :
      (v : ℕ) (p : Poll F)
      → prompt p ≡ true
      → (x : Next) × (sse_round F float_text v p ≡ some x) × ((breaks p ≡ false) ⊎ (x ≡ leave))
  unfolding sse_round ready_round
  round_prompt v interrupted h = (again, refl, inl refl)
  round_prompt v failed h = (leave, refl, inr refl)
  round_prompt v (ready true readable rs) h = (leave, refl, inr refl)
  round_prompt v (ready false true rs) h = (again, ground (arith, drain-ends rs), inl refl)
  round_prompt v (ready false false rs) h = (again, refl, inl refl)
  round_prompt v (quiet running c ws timestamp sent) h =
      let (k, brought) =
        returned (wait_loop v ws running c) (ground (arith, wait_returns v ws running c)) in
      (send_event F float_text v timestamp sent k, rw brought refl, inl refl)

  go_on-Ended :
      (x : Next) (v : ℕ) (rest : ℕ → Option (List Event))
      → ((x ≡ leave) ⊎ ((u : ℕ) → Ended (rest u)))
      → Ended (go_on (some x) v rest)
  unfolding go_on
  go_on-Ended leave v rest h = ([], refl)
  go_on-Ended again v rest (inl e) = cc
  go_on-Ended again v rest (inr h) = h v
  go_on-Ended (emitted e) v rest (inl l) = cc
  go_on-Ended (emitted e) v rest (inr h) = let (es, q) = h e.version in (e ∷ es, rw q refl)

  -- When each wait is ended by its deadline at the latest and each run of input comes to an end,
  -- and the server stops, or a poll fails, or the client hangs up, the loop returns.
  pub stream_ends :
      (rs : List (Round F)) (v : ℕ)
      → all_prompt rs ≡ true
      → comes_to_end rs ≡ true
      → (es : List Event) × (sse_loop F float_text rs v ≡ some es)
  unfolding sse_loop
  stream_ends [] v h c = cc
  stream_ends (r ∷ rs) v h c = elim (Bool-cases r.running) [
    | inr stopped ↦ ([], rw stopped refl)
    | inl runs ↦
        let (x, round, leaves) = round_prompt v r.poll (ground arith) in
        let ends = go_on-Ended x v (sse_loop F float_text rs) (elim leaves [
          | inl on ↦ inr (λ u. stream_ends rs u (ground arith) (ground arith))
          | inr l ↦ inl l
        ]) in
        rw runs (rw round ends)
  ]
