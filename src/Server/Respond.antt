-- ===== src/Server/Respond.antt =====
-- The answers of conn_handler: the request line, the routes, and the header and body that go out.
-- The printing of a float is a parameter; sample_str and avg_str are never sent and are left out.
pub mod RequestLine
pub mod Whole
use linux_device_drivers_hw.Base.Options.{◌>>=◌}
use linux_device_drivers_hw.Base.{
  ℕ, zero, suc, ◌+◌, ◌-◌, Bool, true, false, ◌&&◌, ◌||◌, List, [], ◌∷◌, ◌++◌, Option, none, some,
  if◌then◌else◌, leb, ltb, ◌==◌, length, take, min, Text, codes, decimal, fitted,
}
use linux_device_drivers_hw.Producer.{Floats, SampleFloat}

-- isspace
abbrev pub is_space : ℕ → Bool
is_space c = c == 32 || (leb 9 c && leb c 13)

-- The text in front of the terminating zero.
unfoldable pub c_string : Text → Text
c_string [] = []
c_string (c ∷ cs) = if c == 0 then [] else c ∷ c_string cs

unfoldable pub skip_space : Text → Text
skip_space [] = []
skip_space (c ∷ cs) = if is_space c then skip_space cs else c ∷ cs

-- At most `width` characters up to a space, and the text behind them.
unfoldable pub word : ℕ → Text → Text × Text
word zero t = ([], t)
word (suc width) [] = ([], [])
word (suc width) (c ∷ cs) =
    let r = word width cs in if is_space c then ([], c ∷ cs) else (c ∷ r.0, r.1)

non_empty : Text × Text → Option (Text × Text)
non_empty ([], t) = none
non_empty (c ∷ cs, t) = some (c ∷ cs, t)

-- `%15s` and the like
unfoldable pub scan_word : ℕ → Text → Option (Text × Text)
unfolding non_empty
scan_word width t = non_empty (word width (skip_space t))

-- The path of the request line, `sscanf(request, "%15s %255s %15s", ..)` with all three found.
unfoldable pub request_path : Text → Option Text
unfolding scan_word
request_path request = do
  m ← scan_word 15 (c_string request)
  p ← scan_word 255 m.1
  v ← scan_word 15 p.1
  some p.0

-- strcmp(..) == 0
unfoldable pub same_text : Text → Text → Bool
same_text [] [] = true
same_text (a ∷ s) (b ∷ t) = a == b && same_text s t
same_text s t = false

pub data Route : Type 0 where
  root : Route
  json : Route
  events : Route
  not_found : Route

unfoldable pub route_of : Text → Route
unfolding same_text
route_of path =
    if same_text path (codes "/")
    then root
    else if same_text path (codes "/json")
    then json
    else if same_text path (codes "/events")
    then events
    else not_found

-- The live page.
unfoldable pub page : Text
page =
    codes "<!doctype html>\n"
    ++ codes "<meta charset=\"utf-8\">\n"
    ++ codes "<title>Live MPU6050</title>\n"
    ++ codes "<pre id=\"out\">connecting...</pre>\n"
    ++ codes "<p><a href=\"/json\">View JSON data</a></p>\n"
    ++ codes "<script>\n"
    ++ codes "const out = document.getElementById('out');\n"
    ++ codes "const es = new EventSource('/events');\n"
    ++ codes "es.onmessage = (e) => { out.textContent = e.data; };\n"
    ++ codes "es.onerror = () => { out.textContent += \"\\n[stream error]\"; };\n"
    ++ codes "</script>\n"

unfoldable pub missing_page : Text
missing_page =
    codes "<!doctype html><meta charset=\"utf-8\"><title>404 Not Found</title>"
    ++ codes "<h1>404 Not Found</h1>"
    ++ codes "<p>The requested path was not found.</p>"
    ++ codes
        "<p><a href=\"/\">Go to home</a> | <a href=\"/json\">View JSON</a> | <a href=\"/events\">View Events</a></p>\n"

module _ (F : Floats) (float_text : F.Float → Text) where
  -- The seven fields of a sample as JSON.
  unfoldable pub sample_json : SampleFloat F → Text
  sample_json s =
      codes "{\"ax\":"
      ++ (float_text s.ax
          ++ (codes ",\"ay\":"
              ++ (float_text s.ay
                  ++ (codes ",\"az\":"
                      ++ (float_text s.az
                          ++ (codes ",\"gx\":"
                              ++ (float_text s.gx
                                  ++ (codes ",\"gy\":"
                                      ++ (float_text s.gy
                                          ++ (codes ",\"gz\":"
                                              ++ (float_text s.gz
                                                  ++ (codes ",\"temp\":"
                                                      ++ (float_text s.temp
                                                          ++ codes "}")))))))))))))

  -- The JSON of both samples at a time.
  unfoldable pub json_text : SampleFloat F → SampleFloat F → ℕ → Text
  json_text sample avg timestamp =
      codes "{\"status\":\"ok\",\"sample\":"
      ++ (sample_json sample
          ++ (codes ",\"average\":"
              ++ (sample_json avg
                  ++ (codes ",\"timestamp\":" ++ (decimal timestamp ++ codes "}")))))

-- The header in front of the length of the body, and behind it.
unfoldable pub header_text : Text → ℕ → Text
header_text head body_len =
    head
    ++ (codes "Content-Length: " ++ (decimal body_len ++ codes "\r\nConnection: close\r\n\r\n"))

abbrev pub root_head : Text
root_head =
    codes "HTTP/1.1 200 OK\r\nContent-Type: text/html; charset=utf-8\r\nCache-Control: no-store\r\n"

abbrev pub json_head : Text
json_head = codes "HTTP/1.1 200 OK\r\nContent-Type: application/json\r\n"

abbrev pub missing_head : Text
missing_head = codes "HTTP/1.1 404 Not Found\r\nContent-Type: text/html; charset=utf-8\r\n"

-- What goes out of the two buffers: snprintf returns the full lengths, which are then cut to what
-- the buffers hold.
unfoldable pub reply : Text → Text → Text × Text
reply head body =
    let header = header_text head (length body) in (fitted 256 header, fitted 512 body)
