-- ===== src/Server/Config.antt =====
-- The configuration of the server and its signals: read_config_from_file and handle_signal.
use linux_device_drivers_hw.Base.{
  ℕ, is_zero, ◌+◌, Bool, false, ◌≡◌, ◌⊎◌, inl, inr, refl, Option, none, some, ℤ, pos, negsuc,
  if◌then◌else◌,
}

-- server_config_t
pub record ServerConfig : Type 0 where
  pub max_connections : ℤ
  pub backlog : ℤ
  pub port : ℤ

-- DEFAULT_SERVER_CONFIG
unfoldable pub default_server_config : ServerConfig
default_server_config = record { max_connections = pos 10; backlog = pos 5; port = pos 3737 }

-- What fscanf finds for each of the three lines, when it comes to it.
pub record Scans : Type 0 where
  pub max_connections : Option ℤ
  pub backlog : Option ℤ
  pub port : Option ℤ

-- The three reads in their order: each stores its value, and the first that finds none ends them.
scan_port : Option ℤ → ServerConfig → ℤ × ServerConfig
scan_port none c = (negsuc 1, c)
scan_port (some v) c = (pos 0, record c { port = v })

scan_backlog : Option ℤ → Option ℤ → ServerConfig → ℤ × ServerConfig
scan_backlog none q c = (negsuc 1, c)
scan_backlog (some v) q c = scan_port q (record c { backlog = v })

scan_all : Option ℤ → Option ℤ → Option ℤ → ServerConfig → ℤ × ServerConfig
scan_all none b q c = (negsuc 1, c)
scan_all (some v) b q c = scan_backlog b q (record c { max_connections = v })

-- read_config_from_file; without a file there is nothing to scan.
unfoldable pub read_config_from_file : Option Scans → ServerConfig → ℤ × ServerConfig
unfolding scan_all scan_backlog scan_port
read_config_from_file none c = (negsuc 0, c)
read_config_from_file (some s) c = scan_all s.max_connections s.backlog s.port c

data Signal : Type 0 where
  sigusr2 : Signal
  sigterm : Signal
  sigint : Signal
  sigwinch : Signal
  other : Signal

-- What a signal handler changes: the configuration, the flag of the loops, and the bytes in the
-- pipe that wakes select().
record Control : Type 0 where
  pub config : ServerConfig
  pub running : Bool
  has_pipe : Bool
  pub woken : ℕ

abbrev stop : Control → Control
stop c =
    let c1 = record c { running = false } in
    if c.has_pipe then record c1 { woken = c.woken + 1 } else c1

-- handle_signal, with what the file holds at that moment.
unfoldable handle_signal : Signal → Option Scans → Control → Control
handle_signal sigusr2 file c = record c { config = (read_config_from_file file c.config).1 }
handle_signal sigterm file c = stop c
handle_signal sigint file c = stop c
handle_signal sigwinch file c = c
handle_signal other file c = c

-- The configuration that main starts with.
unfoldable pub start_config : Option Scans → ServerConfig → ServerConfig
start_config file c =
    let r = read_config_from_file file c in if is_zero r.0 then r.1 else default_server_config

-- Whatever the file holds and whatever the configuration was: without a file read_config_from_file
-- returns -1 and changes nothing; when all three lines are found it returns 0 with the three
-- values; otherwise it returns -2, and the values found in front of the first missing line have
-- been stored all the same.
read_config_outcomes :
    (c : ServerConfig) (m b q : Option ℤ)
    → let found : Option Scans = some (record { max_connections = m; backlog = b; port = q }) in
      (read_config_from_file none c ≡ (negsuc 0, c))
      × (((r : ServerConfig) × (read_config_from_file found c ≡ (pos 0, r))
            × (m ≡ some r.max_connections)
            × (b ≡ some r.backlog)
            × (q ≡ some r.port))
          ⊎ (((m ≡ none) ⊎ ((b ≡ none) ⊎ (q ≡ none)))
              × ((read_config_from_file found c).0 ≡ negsuc 1)
              × ((read_config_from_file found c).1.port ≡ c.port)
              × (((m ≡ none) × ((read_config_from_file found c).1 ≡ c))
                  ⊎ (m ≡ some (read_config_from_file found c).1.max_connections))))
unfolding read_config_from_file
read_config_outcomes c none b q = (refl, inr (inl refl, refl, refl, inl (refl, refl)))
read_config_outcomes c (some v) none q = (refl, inr (inr (inl refl), refl, refl, inr refl))
read_config_outcomes c (some v) (some w) none = (refl, inr (inr (inr refl), refl, refl, inr refl))
read_config_outcomes c (some v) (some w) (some u) = (refl, inl (_, refl, refl, refl, refl))
