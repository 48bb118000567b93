-- ===== src/Server/Cache/Waiting.antt =====
-- What a wait for a new version brings.
use linux_device_drivers_hw.Base.{
  ℕ, Bool, true, false, not, ◌≡◌, ◌≢◌, ◌⊎◌, inl, inr, refl, ◌&&◌, ◌||◌, List, [], ◌∷◌, Option, none,
  some, arith, if_keeps, ◌==◌,
}
use linux_device_drivers_hw.Producer.{Floats}
use linux_device_drivers_hw.Server.Cache.{CachedData, Wake, wait_loop}

abbrev pub returns {ℓ} : {A : Type ℓ} → Option A → Bool
returns none = false
returns (some a) = true

pub returned {ℓ} : {A : Type ℓ} (o : Option A) → returns o ≡ true → (a : A) × (o ≡ some a)
returned none h = cc
returned (some a) h = (a, refl)

module _ {F : Floats} where
  -- The caches that the waiting thread comes to see.
  abbrev pub Seen : CachedData F → CachedData F → List (Wake F) → Type 0
  Seen r c [] = r ≡ c
  Seen r c (w ∷ ws) = (r ≡ c) ⊎ Seen r w.cache ws

  Seen-first : (r c : CachedData F) (ws : List (Wake F)) → r ≡ c → Seen r c ws
  Seen-first r c [] e = e
  Seen-first r c (w ∷ ws) e = inl e

  -- A deadline comes, a new version comes, or the server stops.
  abbrev pub timeout_comes : List (Wake F) → Bool
  timeout_comes [] = false
  timeout_comes (w ∷ ws) = w.timed_out || timeout_comes ws

  abbrev version_comes : ℕ → CachedData F → List (Wake F) → Bool
  version_comes last c [] = not (c.version == last)
  version_comes last c (w ∷ ws) = not (c.version == last) || version_comes last w.cache ws

  abbrev stop_comes : Bool → List (Wake F) → Bool
  stop_comes running [] = not running
  stop_comes running (w ∷ ws) = not running || stop_comes w.running ws

  -- The wait of wait_for_new_data ends exactly when the cache has another version than the last
  -- one, at the call or after one of the wakes, or a wake is by the deadline, or the server stops.
  pub wait_returns :
      (last : ℕ) (ws : List (Wake F)) (running : Bool) (c : CachedData F)
      → returns (wait_loop last ws running c)
        ≡ (timeout_comes ws || (version_comes last c ws || stop_comes running ws))
  unfolding wait_loop
  wait_returns last [] running c = ground arith
  wait_returns last (w ∷ ws) running c = ground (arith, wait_returns last ws w.running w.cache)

  -- When the wait ends, what it brings is a cache as it stood at the call or at one of the wakes,
  -- its sample, average and version together; and its version is another than the last one, unless
  -- a wake was by the deadline or the server stops.
  pub wait_brings :
      (last : ℕ) (ws : List (Wake F)) (running : Bool) (c r : CachedData F)
      → wait_loop last ws running c ≡ some r
      → Seen r c ws
        × ((r.version ≢ last) ⊎ ((timeout_comes ws ≡ true) ⊎ (stop_comes running ws ≡ true)))
  unfolding wait_loop
  wait_brings last [] running c r h = ground arith
  wait_brings last (w ∷ ws) running c r h =
      let Brought =
        Seen r c (w ∷ ws)
        × ((r.version ≢ last)
            ⊎ ((timeout_comes (w ∷ ws) ≡ true) ⊎ (stop_comes running (w ∷ ws) ≡ true))) in
      let rest = wait_loop last ws w.running w.cache in
      if_keeps (λ (o : Option (CachedData F)). o ≡ some r → Brought)
        ((c.version == last) && running)
        (λ _.
          if_keeps (λ (o : Option (CachedData F)). o ≡ some r → Brought) w.timed_out
            (λ t e. (inr (Seen-first r w.cache ws (ground arith)), ground arith))
            (λ _ e.
              let (seen, why) = wait_brings last ws w.running w.cache r e in
              (inr seen, ground arith)))
        (λ n e. (inl (ground arith), ground arith)) h
