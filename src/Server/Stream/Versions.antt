-- ===== src/Server/Stream/Versions.antt =====
-- What the event stream sends.
use linux_device_drivers_hw.Base.{
  ℕ, zero, suc, ◌≤◌, ◌<◌, Bool, true, false, ◌≡◌, ◌≢◌, ◌⊎◌, inl, inr, refl, ap, List, [], ◌∷◌, ◌++◌,
  Option, none, some, arith, if_keeps, Option-cases, length, length-append, Text, codes, take,
  take_whole, take_whole,
}
use mathlib.Core.Path.{subst}
use native.Mathlib.Decide.{dec_lt}
use linux_device_drivers_hw.Producer.{Floats}
use linux_device_drivers_hw.Server.Cache.{CachedData, wait_loop}
use linux_device_drivers_hw.Server.Cache.Waiting.{Seen, wait_brings}
use linux_device_drivers_hw.Server.Respond.{json_text}
use linux_device_drivers_hw.Server.Stream.{
  Poll, interrupted, failed, quiet, ready, Round, Event, Next, leave, again, emitted, go_on,
  event_text, send_event, sse_round, sse_loop,
}

length-take_le {ℓ} : {A : Type ℓ} (n : ℕ) (xs : List A) → length (take n xs) ≤ n
length-take_le zero xs = omega arith
length-take_le (suc n) [] = omega arith
length-take_le (suc n) (x ∷ xs) = omega (arith, length-take_le n xs)

module _ (F : Floats) (float_text : F.Float → Text) where
  -- The event is the text of a cache that the wait of this round has seen, and of its version.
  pub Source : Event → Poll F → Type 0
  Source e (quiet running c ws timestamp sent) =
      (k : CachedData F) × Seen k c ws
      × (e.version ≡ k.version)
      × (e.text ≡ event_text F float_text k timestamp)
  Source e _ = ⊥

  -- The events come from the rounds in their order, each with another version than the one before.
  pub data Told : ℕ → List (Round F) → List Event → Type 0 where
    nothing : {v : ℕ} {rs : List (Round F)} → Told v rs []
    silent :
        {v : ℕ} {r : Round F} {rs : List (Round F)} {es : List Event}
        → Told v rs es
        → Told v (r ∷ rs) es
    tells :
        {v : ℕ} {r : Round F} {rs : List (Round F)} {e : Event} {es : List Event}
        → Source e r.poll
        → e.version ≢ v
        → Told e.version rs es
        → Told v (r ∷ rs) (e ∷ es)

  send_event-emitted :
      (v timestamp : ℕ) (sent : Bool) (k : CachedData F) (e : Event)
      → send_event F float_text v timestamp sent k ≡ emitted e
      → (e.version ≢ v) × (e.version ≡ k.version) × (e.text ≡ event_text F float_text k timestamp)
  unfolding send_event
  send_event-emitted v timestamp sent k e h = ground arith

  Told-empty : (v : ℕ) (rs : List (Round F)) (es : List Event) → some [] ≡ some es → Told v rs es
  Told-empty v rs [] h = nothing
  Told-empty v rs (e ∷ es) h = cc

  Told-cons :
      (v : ℕ) (r : Round F) (rs : List (Round F)) (e : Event) (fs es : List Event)
      → some (e ∷ fs) ≡ some es
      → Told v (r ∷ rs) (e ∷ fs)
      → Told v (r ∷ rs) es
  Told-cons v r rs e fs es h t = let same : e ∷ fs ≡ es = cc in subst (Told v (r ∷ rs)) same t

  sse_round-emitted :
      (v : ℕ) (p : Poll F) (e : Event)
      → sse_round F float_text v p ≡ some (emitted e)
      → Source e p × (e.version ≢ v)
  unfolding sse_round Source
  sse_round-emitted v interrupted e h = cc
  sse_round-emitted v failed e h = cc
  sse_round-emitted v (ready true readable rs) e h = cc
  sse_round-emitted v (ready false true rs) e h = ground arith
  sse_round-emitted v (ready false false rs) e h = cc
  sse_round-emitted v (quiet running c ws timestamp sent) e h =
      elim (Option-cases (wait_loop v ws running c)) [
        | inl n ↦ ground arith
        | inr (k, brought) ↦
            let sends : send_event F float_text v timestamp sent k ≡ emitted e = ground arith in
            let (differs, version, text) = send_event-emitted v timestamp sent k e sends in
            ((k, (wait_brings v ws running c k brought).0, version, text), differs)
      ]

  go_on-Told :
      (o : Option Next) (v : ℕ) (r : Round F) (rs : List (Round F)) (rest : ℕ → Option (List Event))
      (es : List Event)
      → ((e : Event) → o ≡ some (emitted e) → Source e r.poll × (e.version ≢ v))
      → ((u : ℕ) (fs : List Event) → rest u ≡ some fs → Told u rs fs)
      → go_on o v rest ≡ some es
      → Told v (r ∷ rs) es
  unfolding go_on
  go_on-Told none v r rs rest es src ih h = cc
  go_on-Told (some leave) v r rs rest es src ih h = Told-empty v (r ∷ rs) es h
  go_on-Told (some again) v r rs rest es src ih h = silent (ih v es h)
  go_on-Told (some (emitted e)) v r rs rest es src ih h = elim (Option-cases (rest e.version)) [
    | inl n ↦ ground arith
    | inr (fs, more) ↦
        let shape : some (e ∷ fs) ≡ some es = ground arith in
        let (source, differs) = src e refl in
        Told-cons v r rs e fs es shape (tells source differs (ih e.version fs more))
  ]

  -- Whatever happens, the events that the loop has sent when it ends are those of caches that its
  -- waits have seen, in the order of the rounds, sample, average and version of a cache together;
  -- and each has another version than the one before it, the first than the version at the start.
  pub stream_tells :
      (rs : List (Round F)) (v : ℕ) (es : List Event)
      → sse_loop F float_text rs v ≡ some es
      → Told v rs es
  unfolding sse_loop
  stream_tells [] v es h = cc
  stream_tells (r ∷ rs) v es h =
      if_keeps (λ (o : Option (List Event)). o ≡ some es → Told v (r ∷ rs) es) r.running
        (λ _.
          go_on-Told (sse_round F float_text v r.poll) v r rs (sse_loop F float_text rs) es
            (sse_round-emitted v r.poll) (stream_tells rs))
        (λ _ e. Told-empty v (r ∷ rs) es e) h

  -- An event always fits the buffer of 1152 bytes, and it holds the whole JSON unless that has more
  -- than 1023 characters.
  event_fits :
      (c : CachedData F) (timestamp : ℕ)
      → let json = json_text F float_text c.current_sample c.average timestamp in
        let event = event_text F float_text c timestamp in
        (length event < 1152)
        × ((event ≡ codes "data: " ++ (json ++ codes "\n\n")) ⊎ (1023 < length json))
  unfolding event_text
  event_fits c timestamp =
      let json = json_text F float_text c.current_sample c.average timestamp in
      (
        omega (arith, length-append {0}, length-take_le 1023 json),
        elim (dec_lt 1023 (length json)) [
          | yes p ↦ inr p
          | no p ↦ inl (
              ap (λ (t : Text). codes "data: " ++ (t ++ codes "\n\n"))
                (take_whole 1023 json (omega arith)))
        ],
      )
