-- ===== src/Server/Respond/RequestLine.antt =====
-- The path of a well-formed request line is found.
use linux_device_drivers_hw.Base.{
  ℕ, zero, suc, ◌≤◌, ◌<◌, ◌≡◌, refl, ap, ◌∙◌, true, false, [], ◌∷◌, ◌++◌, some, arith, length, Text,
  ◌==◌, All,
}
use linux_device_drivers_hw.Server.Respond.{
  is_space, c_string, skip_space, word, scan_word, request_path,
}

-- A character that is neither a space nor the terminating zero.
abbrev IsInk : ℕ → Type 0
IsInk c = (is_space c ≡ false) × ((c == 0) ≡ false)

-- A word of a request line: some ink, within a width.
pub record IsWord (width : ℕ) (w : Text) : Type 0 where
  pub some_ink : 0 < length w
  pub fits : length w ≤ width
  pub ink : All IsInk w

word_lem :
    (width stop : ℕ) (w rest : Text)
    → is_space stop ≡ true
    → All IsInk w
    → length w ≤ width
    → word width (w ++ stop ∷ rest) ≡ (w, stop ∷ rest)
unfolding word
word_lem zero stop [] rest e h l = refl
word_lem (suc width) stop [] rest e h l = rw e refl
word_lem zero stop (c ∷ w) rest e h l = absurd (omega arith)
word_lem (suc width) stop (c ∷ w) rest e h l =
    rw h.0.0 (ap (λ r. (c ∷ r.0, r.1)) (word_lem width stop w rest e h.1 (omega arith)))

scan_word_lem :
    (width stop : ℕ) (w rest : Text)
    → is_space stop ≡ true
    → IsWord width w
    → scan_word width (w ++ stop ∷ rest) ≡ some (w, stop ∷ rest)
unfolding scan_word skip_space
scan_word_lem width stop [] rest e h = absurd (omega (arith, h.some_ink))
scan_word_lem width stop (c ∷ w) rest e h =
    rw (h.ink.0.0, word_lem width stop (c ∷ w) rest e h.ink h.fits) refl

-- A space in front of a word is skipped.
scan_word-space : (width : ℕ) (t : Text) → scan_word width (32 ∷ t) ≡ scan_word width t
unfolding scan_word skip_space
scan_word-space width t = refl

c_string_lem :
    (w : Text) (c : ℕ) (rest : Text)
    → All IsInk w
    → (c == 0) ≡ false
    → c_string (w ++ c ∷ rest) ≡ w ++ c ∷ c_string rest
unfolding c_string
c_string_lem [] c rest h e = rw e refl
c_string_lem (d ∷ w) c rest h e = rw h.0.1 (ap (λ t. d ∷ t) (c_string_lem w c rest h.1 e))

-- For a method and a version of 1 to 15 characters and a path of 1 to 255, none of them a space or
-- a zero, the path that conn_handler takes from the request line that they make, whatever follows
-- its carriage return, is that path.
request_path_lem :
    (method path version rest : Text)
    → IsWord 15 method
    → IsWord 255 path
    → IsWord 15 version
    → request_path (method ++ 32 ∷ (path ++ 32 ∷ (version ++ 13 ∷ rest))) ≡ some path
unfolding request_path
request_path_lem method path version rest m p v =
    let t = c_string rest in
    let e : c_string (method ++ 32 ∷ (path ++ 32 ∷ (version ++ 13 ∷ rest)))
        ≡ method ++ 32 ∷ (path ++ 32 ∷ (version ++ 13 ∷ t)) =
      c_string_lem method 32 (path ++ 32 ∷ (version ++ 13 ∷ rest)) m.ink refl
      ∙ ap (λ u. method ++ 32 ∷ u)
          (c_string_lem path 32 (version ++ 13 ∷ rest) p.ink refl
            ∙ ap (λ u. path ++ 32 ∷ u) (c_string_lem version 13 rest v.ink refl)) in
    rw
      (
        e,
        scan_word_lem 15 32 method (path ++ 32 ∷ (version ++ 13 ∷ t)) refl m,
        scan_word-space 255 (path ++ 32 ∷ (version ++ 13 ∷ t)),
        scan_word_lem 255 32 path (version ++ 13 ∷ t) refl p,
        scan_word-space 15 (version ++ 13 ∷ t),
        scan_word_lem 15 13 version t refl v,
      )
      refl
