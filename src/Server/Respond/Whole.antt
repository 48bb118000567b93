-- ===== src/Server/Respond/Whole.antt =====
-- Nothing of an answer is cut off, and the length that is announced is the body's.
use linux_device_drivers_hw.Base.{
  ℕ, ◌+◌, ◌≤◌, ◌<◌, ◌≡◌, ap₂, arith, length, length-append, take_whole, Text, decimal-length,
  power_of_ten,
}
use linux_device_drivers_hw.Producer.{Floats, SampleFloat}
use linux_device_drivers_hw.Server.Respond.{
  page, missing_page, sample_json, json_text, header_text, root_head, json_head, missing_head,
  reply,
}

length-header_text :
    (head : Text) (n : ℕ) → n < 1000 → length (header_text head n) ≤ length head + 60
unfolding header_text
length-header_text head n h = omega (arith, length-append {0}, decimal-length n 2 h)

reply_whole :
    (head body : Text)
    → length head ≤ 150
    → length body ≤ 511
    → reply head body ≡ (header_text head (length body), body)
unfolding reply
reply_whole head body h b =
    ap₂ (λ x y. (x, y))
      (take_whole 255 (header_text head (length body))
        (omega (arith, length-header_text head (length body) (omega arith))))
      (take_whole 511 body b)

page-short : length page ≤ 511
unfolding page
page-short = omega arith

missing-short : length missing_page ≤ 511
unfolding missing_page
missing-short = omega arith

module _ (F : Floats) (float_text : F.Float → Text) where
  -- Each field of a sample is printed in at most 24 characters.
  pub record IsShortText (s : SampleFloat F) : Type 0 where
    pub ax : length (float_text s.ax) ≤ 24
    pub ay : length (float_text s.ay) ≤ 24
    pub az : length (float_text s.az) ≤ 24
    pub gx : length (float_text s.gx) ≤ 24
    pub gy : length (float_text s.gy) ≤ 24
    pub gz : length (float_text s.gz) ≤ 24
    pub temp : length (float_text s.temp) ≤ 24

  length-sample_json :
      (s : SampleFloat F) → IsShortText s → length (sample_json F float_text s) ≤ 213
  unfolding sample_json
  length-sample_json s h = omega (arith, length-append {0})

  length-json_text :
      (s avg : SampleFloat F) (timestamp : ℕ)
      → IsShortText s
      → IsShortText avg
      → timestamp < power_of_ten 20
      → length (json_text F float_text s avg timestamp) ≤ 500
  unfolding json_text
  length-json_text s avg timestamp hs ha ht = omega (
    arith,
    length-append {0},
    length-sample_json s hs,
    length-sample_json avg ha,
    decimal-length timestamp 19 ht,
  )

  -- The live page and the page for a path that is not found go out whole, with their length
  -- announced, and so does the JSON of two samples whose fields are printed in at most 24
  -- characters each, at a time of at most 20 digits.
  pub replies_whole :
      (s avg : SampleFloat F) (timestamp : ℕ)
      → IsShortText s
      → IsShortText avg
      → timestamp < power_of_ten 20
      → let json = json_text F float_text s avg timestamp in
        (reply root_head page ≡ (header_text root_head (length page), page))
        × (reply missing_head missing_page
            ≡ (header_text missing_head (length missing_page), missing_page))
        × (reply json_head json ≡ (header_text json_head (length json), json))
  replies_whole s avg timestamp hs ha ht = (
    reply_whole root_head page (omega arith) page-short,
    reply_whole missing_head missing_page (omega arith) missing-short,
    reply_whole json_head (json_text F float_text s avg timestamp) (omega arith)
        (omega (arith, length-json_text s avg timestamp hs ha ht)),
  )
