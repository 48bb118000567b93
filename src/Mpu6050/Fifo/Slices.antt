-- ===== src/Mpu6050/Fifo/Slices.antt =====
-- Parts of arrays: what is taken, dropped and put in the place of a part.
use linux_device_drivers_hw.Base.{take-add, sym}
use linux_device_drivers_hw.Base.{
  ℕ, zero, suc, ◌+◌, ◌-◌, ◌≤◌, ◌≡◌, sym, ap, ◌∙◌, append_assoc, append-nil, List, [], ◌∷◌, ◌++◌,
  arith, length, All, length-append, length-take, length-drop, take, drop,
}

pub All-take {ℓ κ} :
    {A : Type ℓ} (P : A → Type κ) (n : ℕ) (xs : List A) → All P xs → All P (take n xs)
All-take P zero xs h = tt
All-take P (suc n) [] h = tt
All-take P (suc n) (x ∷ xs) h = (h.0, All-take P n xs h.1)

pub All-drop {ℓ κ} :
    {A : Type ℓ} (P : A → Type κ) (n : ℕ) (xs : List A) → All P xs → All P (drop n xs)
All-drop P zero xs h = h
All-drop P (suc n) [] h = tt
All-drop P (suc n) (x ∷ xs) h = All-drop P n xs h.1

module _ {ℓ} {A : Type ℓ} where
  pub take_beyond :
      (xs ys : List A) (n k : ℕ) → length xs ≡ n → take (n + k) (xs ++ ys) ≡ xs ++ take k ys
  take_beyond [] ys zero k h = let e : 0 + k ≡ k = omega arith in ap (λ j. take j ys) e
  take_beyond [] ys (suc n) k h = absurd (omega arith)
  take_beyond (x ∷ xs) ys zero k h = absurd (omega arith)
  take_beyond (x ∷ xs) ys (suc n) k h =
      let e : suc n + k ≡ suc (n + k) = omega arith in
      ap (λ j. take j (x ∷ (xs ++ ys))) e ∙ ap (λ l. x ∷ l) (take_beyond xs ys n k (omega arith))

  pub take_front : (n : ℕ) (b c : List A) → length b ≡ n → take n (b ++ c) ≡ b
  take_front n b c h =
      let e : n + 0 ≡ n = omega arith in
      ap (λ k. take k (b ++ c)) (sym e) ∙ take_beyond b c n 0 h ∙ append-nil b

  -- The part of the array that a chunk completes.
  splice_prefix :
      (buf f rest : List A) (offset chunk : ℕ)
      → offset ≤ length buf
      → chunk ≤ length f
      → take (offset + chunk) (take offset buf ++ (take chunk f ++ rest))
        ≡ take offset buf ++ take chunk f
  splice_prefix buf f rest offset chunk h k =
      let c = take chunk f in
      let n : length (take offset buf) ≡ offset = omega (arith, length-take offset buf) in
      let m : length c ≡ chunk = omega (arith, length-take chunk f) in
      let z : chunk ≡ chunk + 0 = omega arith in
      take_beyond (take offset buf) (c ++ rest) offset chunk n
      ∙ ap (λ l. take offset buf ++ l)
          (ap (λ j. take j (c ++ rest)) z ∙ take_beyond c rest chunk 0 m ∙ append-nil c)

  pub length-splice :
      (buf f : List A) (offset chunk : ℕ)
      → offset + chunk ≤ length buf
      → chunk ≤ length f
      → length (take offset buf ++ (take chunk f ++ drop (offset + chunk) buf)) ≡ length buf
  length-splice buf f offset chunk h k = omega (
    arith,
    length-append (take offset buf) (take chunk f ++ drop (offset + chunk) buf),
    length-append (take chunk f) (drop (offset + chunk) buf),
    length-take offset buf,
    length-take chunk f,
    length-drop (offset + chunk) buf,
  )

  pub chunk_joins :
      (buf f rest : List A) (offset chunk remaining : ℕ)
      → offset ≤ length buf
      → chunk ≤ length f
      → chunk ≤ remaining
      → take (offset + chunk) (take offset buf ++ (take chunk f ++ rest))
          ++ take (remaining - chunk) (drop chunk f)
        ≡ take offset buf ++ take remaining f
  chunk_joins buf f rest offset chunk remaining h k l =
      let e : chunk + (remaining - chunk) ≡ remaining = omega arith in
      ap (λ p. p ++ take (remaining - chunk) (drop chunk f))
        (splice_prefix buf f rest offset chunk h k)
      ∙ append_assoc (take offset buf) (take chunk f) (take (remaining - chunk) (drop chunk f))
      ∙ ap (λ t. take offset buf ++ t)
          (sym (take-add chunk (remaining - chunk) f) ∙ ap (λ j. take j f) e)
