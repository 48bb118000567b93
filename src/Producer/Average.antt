-- ===== src/Producer/Average.antt =====
-- The ring of samples: its bounds, and its average while the last slot is not yet a sample's.
use mathlib.Core.Path.{subst}
use linux_device_drivers_hw.Base.{
  ℕ, zero, suc, ◌+◌, ◌≤◌, ◌<◌, ◌≡◌, refl, sym, ap, ◌∙◌, true, arith, List, [], ◌∷◌, ◌++◌, ltb,
  if◌then◌else◌, length, take, drop, get_or, set, length-set, length-append, length-replicate,
  take-drop-suc, take-set, get_or-set_self, append_assoc, append-nil,
}
use linux_device_drivers_hw.Producer.{
  buffer_size, Floats, SampleFloat, SharedData, zero_sample, accumulate, divide_all, sum_from,
  cleared, store,
}

module _ (F : Floats) where
  -- The ring keeps its size, and the counter and the index stay within it.
  record IsRing (d : SharedData F) : Type 0 where
    pub size : length d.buffer ≡ buffer_size
    pub filled : d.count ≤ buffer_size
    pub inside : d.write_index < buffer_size

  store-IsRing : (s : SampleFloat F) (d : SharedData F) → IsRing d → IsRing (store F s d)
  unfolding store
  store-IsRing s d v =
      let filled = set d.buffer d.write_index s in
      record {
        size = length-set filled 127 _ ∙ length-set d.buffer d.write_index s ∙ v.size;
        filled = ground (arith, v.filled);
        inside = omega arith;
      }

  -- Samples stored one after the other
  abbrev pub stores : List (SampleFloat F) → SharedData F → SharedData F
  stores [] d = d
  stores (s ∷ ss) d = stores ss (store F s d)

  -- The sum of samples from the left.
  abbrev pub sum : List (SampleFloat F) → SampleFloat F → SampleFloat F
  sum [] avg = avg
  sum (s ∷ ss) avg = sum ss (accumulate F avg s)

  sum_from_lem :
      (n i : ℕ) (b : List (SampleFloat F)) (avg : SampleFloat F)
      → i + n ≤ length b
      → sum_from F n i b avg ≡ sum (take n (drop i b)) avg
  unfolding sum_from
  sum_from_lem zero i b avg h = refl
  sum_from_lem (suc n) i b avg h =
      let e : i + 1 ≡ suc i = omega arith in
      sum_from_lem n (i + 1) b (accumulate F avg (get_or b i (zero_sample F))) (omega arith)
      ∙ ap (λ j. sum (take n (drop j b)) (accumulate F avg (get_or b i (zero_sample F)))) e
      ∙ ap (λ l. sum l avg) (sym (take-drop-suc n i b (zero_sample F) (omega arith)))

  take-set_beyond :
      (k i : ℕ) (b : List (SampleFloat F)) (v : SampleFloat F)
      → k ≤ i
      → take k (set b i v) ≡ take k b
  take-set_beyond zero i b v h = refl
  take-set_beyond (suc k) i [] v h = refl
  take-set_beyond (suc k) zero (x ∷ b) v h = absurd (omega arith)
  take-set_beyond (suc k) (suc i) (x ∷ b) v h =
      ap (λ l. x ∷ l) (take-set_beyond k i b v (omega arith))

  -- The first slots hold the samples stored so far, and nothing has wrapped.
  record IsFilled (xs : List (SampleFloat F)) (d : SharedData F) : Type 0 where
    size : length d.buffer ≡ buffer_size
    counted : d.count ≡ length xs
    index : d.write_index ≡ length xs
    stored : take (length xs) d.buffer ≡ xs

  cleared-IsFilled : IsFilled [] (cleared F)
  unfolding cleared
  cleared-IsFilled = record {
    size = length-replicate buffer_size (zero_sample F);
    counted = refl;
    index = refl;
    stored = refl;
  }

  -- The slots behind the write.
  filled_prefix :
      (xs : List (SampleFloat F)) (s : SampleFloat F) (d : SharedData F)
      → IsFilled xs d
      → length xs < buffer_size
      → take (suc (length xs)) (set d.buffer d.write_index s) ≡ xs ++ s ∷ []
  filled_prefix xs s d v h =
      ap (λ i. take (suc (length xs)) (set d.buffer i s)) v.index
      ∙ take-set d.buffer (length xs) s (omega (arith, v.size))
      ∙ ap (λ l. l ++ s ∷ []) v.stored

  store-IsFilled :
      (xs : List (SampleFloat F)) (s : SampleFloat F) (d : SharedData F)
      → IsFilled xs d
      → length xs < 127
      → IsFilled (xs ++ s ∷ []) (store F s d)
  unfolding store
  store-IsFilled xs s d v h =
      let filled = set d.buffer d.write_index s in
      let n : length (xs ++ s ∷ []) ≡ suc (length xs) = omega (arith, length-append xs (s ∷ [])) in
      record {
        size = length-set filled 127 _ ∙ length-set d.buffer d.write_index s ∙ v.size;
        counted = ground (arith, v.counted, n);
        index = ground (arith, v.index, n);
        stored =
            ap (λ k. take k (store F s d).buffer) n
            ∙ take-set_beyond (suc (length xs)) 127 filled _ (omega arith)
            ∙ filled_prefix xs s d v (omega arith);
      }

  stores-IsFilled :
      (ys xs : List (SampleFloat F)) (d : SharedData F)
      → IsFilled xs d
      → length xs + length ys ≤ 127
      → IsFilled (xs ++ ys) (stores ys d)
  stores-IsFilled [] xs d v h = subst (λ l. IsFilled l d) (sym (append-nil xs)) v
  stores-IsFilled (y ∷ ys) xs d v h =
      subst (λ l. IsFilled l (stores ys (store F y d))) (append_assoc xs (y ∷ []) ys)
        (stores-IsFilled ys (xs ++ y ∷ []) (store F y d) (store-IsFilled xs y d v (omega arith))
          (omega (arith, length-append xs (y ∷ []))))

  -- The last slot behind a store.
  last_slot :
      (xs : List (SampleFloat F)) (s : SampleFloat F) (d : SharedData F)
      → IsFilled xs d
      → length xs < 127
      → get_or (store F s d).buffer 127 (zero_sample F)
        ≡ divide_all F (sum (xs ++ s ∷ []) (zero_sample F)) (suc (length xs))
  unfolding store
  last_slot xs s d v h =
      let filled = set d.buffer d.write_index s in
      let len : length filled ≡ buffer_size = length-set d.buffer d.write_index s ∙ v.size in
      let c : (store F s d).count ≡ suc (length xs) = ground (arith, v.counted) in
      let p : ltb 0 (suc (length xs)) ≡ true = ground arith in
      let total : sum_from F (suc (length xs)) 0 filled (zero_sample F)
          ≡ sum (xs ++ s ∷ []) (zero_sample F) =
        sum_from_lem (suc (length xs)) 0 filled (zero_sample F) (omega (arith, len))
        ∙ ap (λ l. sum l (zero_sample F)) (filled_prefix xs s d v (omega arith)) in
      get_or-set_self filled 127 _ (zero_sample F) (omega (arith, len))
      ∙ ap
          (λ n.
            let t = sum_from F n 0 filled (zero_sample F) in
            if ltb 0 n then divide_all F t n else t)
          c
      ∙ simp (p, total) refl

  -- While fewer than 128 samples have been stored since the memory was cleared, a store leaves the
  -- samples in their order in the first slots, the latest as the current sample, and in the last
  -- slot the average of all of them: their sum from the left, divided by their number.
  pub store_average :
      (xs : List (SampleFloat F)) (s : SampleFloat F)
      → length xs < 127
      → let d = store F s (stores xs (cleared F)) in
        (take (suc (length xs)) d.buffer ≡ xs ++ s ∷ [])
        × (d.current_sample ≡ s)
        × (get_or d.buffer 127 (zero_sample F)
            ≡ divide_all F (sum (xs ++ s ∷ []) (zero_sample F)) (suc (length xs)))
  unfolding store
  store_average xs s h =
      let v = stores-IsFilled xs [] (cleared F) cleared-IsFilled (omega arith) in
      let d = stores xs (cleared F) in
      (
        take-set_beyond (suc (length xs)) 127 (set d.buffer d.write_index s) _ (omega arith)
            ∙ filled_prefix xs s d v (omega arith),
        refl,
        last_slot xs s d v h,
      )

  -- A ring of 128 slots with its counter at most 128 and its index below 128 stays one over any
  -- number of stores.
  stores-IsRing : (ss : List (SampleFloat F)) (d : SharedData F) → IsRing d → IsRing (stores ss d)
  stores-IsRing [] d v = v
  stores-IsRing (s ∷ ss) d v = stores-IsRing ss (store F s d) (store-IsRing s d v)
