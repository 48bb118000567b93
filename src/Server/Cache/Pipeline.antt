-- ===== src/Server/Cache/Pipeline.antt =====
-- From the producer to a waiting client: the shared memory, a round of the reader thread, the
-- cache.
use linux_device_drivers_hw.Base.{
  ◌^◌, ◌<◌, ◌≡◌, ◌≢◌, suc, ap₂, true, false, List, [], ◌∷◌, ◌++◌, some, arith, length,
}
use linux_device_drivers_hw.Producer.{Floats, SampleFloat, zero_sample, divide_all, cleared, store}
use linux_device_drivers_hw.Producer.Average.{stores, sum, store_average}
use linux_device_drivers_hw.Server.Cache.{CachedData, reader_round, get_cached_data, wait_loop}

module _ (F : Floats) where
  -- When the producer has stored fewer than 127 samples since it cleared the memory, and then one
  -- more, and the cache's version is a uint64_t, a round of the reader thread puts that sample and
  -- the average of all of them into the cache, where get_cached_data finds them, under another
  -- version; and a client that waits with the version before and is woken then gets them.
  pub sample_arrives :
      (xs : List (SampleFloat F)) (s : SampleFloat F) (c : CachedData F)
      → length xs < 127
      → c.version < 2 ^ 64
      → let t = reader_round (store F s (stores F xs (cleared F))) c in
        (get_cached_data t
          ≡ (s, divide_all F (sum F (xs ++ s ∷ []) (zero_sample F)) (suc (length xs))))
        × (t.version ≢ c.version)
        × (wait_loop c.version (record { timed_out = false; cache = t; running = true } ∷ []) true c
            ≡ some t)
  unfolding get_cached_data reader_round wait_loop
  sample_arrives xs s c h v =
      let d = store F s (stores F xs (cleared F)) in
      let (p, q, a) = store_average F xs s h in
      (ap₂ (λ x y. (x, y)) q a, λ e. absurd (omega arith), ground arith)
