-- ===== src/Tests/StreamRuns.antt =====
-- The FIFO of the sensor behind the I2C2 controller: a frame of 14 bytes, with more behind it.
use mathlib.Core.Path.{subst}
use linux_device_drivers_hw.Base.{
  ℕ, zero, suc, ◌-◌, ◌<◌, ◌≡◌, ◌⊎◌, refl, sym, ap, ◌∙◌, inl, inr, List, [], ◌∷◌, ◌++◌, some, pos,
  arith, length, take, drop, get_or,
}
use linux_device_drivers_hw.I2c2.State.{Irq, Ll, i2c_w, i2c_r, cm_r}
use linux_device_drivers_hw.I2c2.Isr.{run_irqs, irq_handler, on_xrdy, on_rrdy, on_ardy}
use linux_device_drivers_hw.I2c2.Clock.{ensure_clk, clk_is_on, wait_bus_free, poll_bus}
use linux_device_drivers_hw.I2c2.Transfer.{
  wait_done, begin_transfer, finish_transfer, start_transfer, start_write, start_read, read_block,
}
use linux_device_drivers_hw.Mpu6050.Bus.{i2c2_bus, i2c2_block}
use linux_device_drivers_hw.Mpu6050.Fifo.{chunk_of, fetch, read_fifo_bytes}
use linux_device_drivers_hw.Mpu6050.Fifo.Chunks.{IsStream, read_fifo_bytes_stream}
use linux_device_drivers_hw.Mpu6050.Fifo.Samples.{encode_all, fetch_decodes}
use linux_device_drivers_hw.Tests.I2c2Controller.{ready, end}
use linux_device_drivers_hw.Tests.Mpu6050Sensor.{flat, blank, flat-IsRaw, mpu, room}

-- The controller asks for a byte and brings one, for each of them, and then reports the end.
abbrev bringing : List ℕ → List Irq
bringing [] = end ∷ []
bringing (b ∷ bs) = record { raw = 24; status = 24; byte = b } ∷ bringing bs

abbrev held : List ℕ
held = encode_all (flat ∷ []) ++ (7 ∷ [])

abbrev full : Ll
full = record ready { hw = record (ready.hw) { irqs = λ t. bringing (encode_all (flat ∷ [])) } }

-- A list by its elements.
abbrev spell : ℕ → List ℕ → List ℕ
spell zero xs = []
spell (suc n) xs = get_or xs 0 0 ∷ spell n (drop 1 xs)

spell_lem : (n : ℕ) (xs : List ℕ) → length xs ≡ n → spell n xs ≡ xs
spell_lem zero [] h = refl
spell_lem zero (x ∷ xs) h = absurd (omega arith)
spell_lem (suc n) [] h = absurd (omega arith)
spell_lem (suc n) (x ∷ xs) h = ap (λ l. x ∷ l) (spell_lem n xs (omega arith))

-- Whatever the array holds, the read of the frame fills it.
frame_read : (b : List ℕ) → (i2c2_block 0x68 0x74 14 (spell 14 b) full).0 ≡ (pos 0, take 14 held)
unfolding i2c2_block read_block start_write start_read start_transfer ensure_clk clk_is_on
    wait_bus_free poll_bus i2c_w i2c_r cm_r begin_transfer wait_done finish_transfer run_irqs
    irq_handler on_xrdy on_rrdy on_ardy
frame_read b = refl

-- The FIFO at the start, and when nothing more is asked of it.
abbrev At : Ll → ℕ → List ℕ → Type 0
At s n f = ((s ≡ full) × (n ≡ 14) × (f ≡ held)) ⊎ (n ≡ 0)

-- What a read of the next block gives and leaves.
abbrev Reads : List ℕ → Ll → ℕ → List ℕ → Type 0
Reads b s n f =
    length b ≡ chunk_of n
    → let r = i2c2_block 0x68 0x74 (chunk_of n) b s in
      (r.0 ≡ (pos 0, take (chunk_of n) f)) × At r.1 (n - chunk_of n) (drop (chunk_of n) f)

frame_block : (b : List ℕ) → Reads b full 14 held
unfolding chunk_of
frame_block b l =
    (ap (λ c. (i2c2_block 0x68 0x74 14 c full).0) (sym (spell_lem 14 b l)) ∙ frame_read b, inr refl)

front_block : (n : ℕ) (f b : List ℕ) (s : Ll) → At s n f → 0 < n → Reads b s n f
front_block n f b s (inr z) p = absurd (omega arith)
front_block n f b s (inl (es, en, ef)) p =
    subst (λ t. Reads b t n f) (sym es)
      (subst (λ m. Reads b full m f) (sym en) (subst (Reads b full 14) (sym ef) (frame_block b)))

abbrev controller_stream : IsStream i2c2_bus 0x68
controller_stream = record { Streams = At; reads = λ n f b s h p l k. front_block n f b s h p k }

read_fifo_bytes_stream_example :
    let r = read_fifo_bytes i2c2_bus mpu room 14 full in
    (r.0 ≡ (pos 14, take 14 held)) × At r.1 0 (7 ∷ [])
read_fifo_bytes_stream_example =
    read_fifo_bytes_stream i2c2_bus mpu controller_stream room held full (inl (refl, refl, refl))
      refl (omega arith) (omega arith)

fetch_decodes_example :
    (fetch i2c2_bus (some room) mpu (blank ∷ blank ∷ []) 1 full).0 ≡ (pos 1, flat ∷ blank ∷ [])
fetch_decodes_example =
    fetch_decodes i2c2_bus mpu controller_stream (flat ∷ []) (blank ∷ blank ∷ []) room (7 ∷ []) full
      refl (flat-IsRaw, tt) (omega arith) (omega arith) refl (inl (refl, refl, refl))
