-- ===== src/Tests/ProducerRuns.antt =====
-- The producer with natural numbers in place of floats.
use linux_device_drivers_hw.Base.{ℕ, ◌+◌, ◌/◌, ◌≡◌, List, [], ◌∷◌, ◌++◌, arith, take, get_or}
use linux_device_drivers_hw.Producer.{Floats, SampleFloat, zero_sample, divide_all, cleared, store}
use linux_device_drivers_hw.Producer.Average.{stores, sum, store_average}

abbrev naturals : Floats
naturals = record { Float = ℕ; zero_float = 0; add = λ a b. a + b; divide = λ a n. a / n }

abbrev sample : ℕ → SampleFloat naturals
sample n = record { ax = n; ay = n; az = n; gx = n; gy = n; gz = n; temp = n }

abbrev two_samples : List (SampleFloat naturals)
two_samples = sample 2 ∷ sample 4 ∷ []

store_average_example :
    let d = store naturals (sample 9) (stores naturals two_samples (cleared naturals)) in
    (take 3 d.buffer ≡ sample 2 ∷ sample 4 ∷ sample 9 ∷ [])
    × (d.current_sample ≡ sample 9)
    × (get_or d.buffer 127 (zero_sample naturals)
        ≡ divide_all naturals
            (sum naturals (two_samples ++ sample 9 ∷ []) (zero_sample naturals))
            3)
store_average_example = store_average naturals two_samples (sample 9) (omega arith)
