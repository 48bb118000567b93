-- ===== src/Kdd/Ends.antt =====
-- The loop of mpu6050_read_fifo_bytes in 08_BeagleBone_pdev/mpu6050_kdd_primitives.c ends: its fuel is enough.
use linux_device_drivers_hw.Base.{
  ℕ, zero, suc, ◌+◌, ◌-◌, ◌<◌, ◌≡◌, refl, inl, inr, Bool-cases, List, ℤ, arith, ltb, length, ◌==◌,
  ◌%◌,
}
use linux_device_drivers_hw.Mpu6050.Regs.{reg_fifo_r_w}
use linux_device_drivers_hw.Mpu6050.Fifo.{chunk_of}
use linux_device_drivers_hw.Kdd.{I2cCore, Reply, failed, bytes}
use linux_device_drivers_hw.Kdd.Fifo.{splice, after_block, read_rounds}

module _ (B : I2cCore) where
  -- A round that goes on only with full blocks, in two ways that agree on them.
  after_block-agrees :
      (r : Reply) (chunk offset : ℕ) (buf : List ℕ) (s : B.State)
      (next next' : List ℕ → (ℤ × List ℕ) × B.State)
      → ((b : List ℕ) → length b ≡ chunk → next b ≡ next' b)
      → after_block B r chunk offset buf s next ≡ after_block B r chunk offset buf s next'
  unfolding after_block
  after_block-agrees (failed n) chunk offset buf s next next' h = refl
  after_block-agrees (bytes b) chunk offset buf s next next' h =
      elim (Bool-cases (length b == chunk)) [
        | inl e ↦ rw (h b (ground arith)) refl
        | inr n ↦ rw n refl
      ]

  -- With more fuel than bytes remaining, the amount of fuel does not matter: the loop does not end for want
  -- of it.
  read_rounds_ends :
      (fuel fuel' client remaining offset : ℕ) (buf : List ℕ) (s : B.State)
      → remaining < fuel
      → remaining < fuel'
      → read_rounds B fuel client remaining offset buf s
        ≡ read_rounds B fuel' client remaining offset buf s
  unfolding read_rounds chunk_of
  read_rounds_ends zero fuel' client remaining offset buf s h k = absurd (omega arith)
  read_rounds_ends (suc fuel) zero client remaining offset buf s h k = absurd (omega arith)
  read_rounds_ends (suc fuel) (suc fuel') client remaining offset buf s h k =
      let chunk = chunk_of remaining in
      let r = B.read_i2c_block_data client reg_fifo_r_w (chunk % 256) s in
      let on = λ (n : ℕ) (b : List ℕ).
        read_rounds B n client (remaining - length b) (offset + length b) (splice offset b buf)
          r.1 in
      elim (Bool-cases (ltb 0 remaining)) [
        | inl more ↦ rw more (
            after_block-agrees r.0 chunk offset buf r.1 (on fuel) (on fuel') (λ b e.
              read_rounds_ends fuel fuel' client (remaining - length b) (offset + length b)
                (splice offset b buf) r.1 (ground arith) (ground arith)))
        | inr done ↦ rw done refl
      ]
