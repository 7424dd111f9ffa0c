-- ===== src/Config.antt =====
-- internal/config/config.go: the configuration, its defaults, its validation, and its file. A string
-- is its bytes, an int an integer, and a pointer that may be nil an option. YAML and the formats of
-- package net are parameters.
pub mod Valid
pub mod Files
use mpfpv.Prelude.{
  ℕ, zero, List, [], ◌∷◌, Bool, true, false, not, ◌&&◌, Option, none, some, if◌then◌else◌,
  bytes_beq, bytes_eq, ◌==◌,
}
use mpfpv.Prelude.Int.{ℤ, pos, negsuc}
use mpfpv.Prelude.Map.{Map, lookup, insert}
use mpfpv.Prelude.Outcome.{Result, ok, err}

pub record ClientConfig : Type 0 where
  pub client_id : ℕ
  pub virtual_ip : List ℕ
  pub device_name : List ℕ
  pub server_addr : List ℕ
  pub send_mode : List ℕ
  pub mtu : ℤ
  pub dedup_window : ℤ
  pub excluded_interfaces : List (List ℕ)
  pub bind_interface : List ℕ
  pub web_ui : List ℕ

pub record ServerConfig : Type 0 where
  pub listen_addr : List ℕ
  pub virtual_ip : List ℕ
  pub subnet : List ℕ
  pub client_timeout : ℤ
  pub addr_timeout : ℤ
  pub dedup_window : ℤ
  pub mtu : ℤ
  pub ip_pool_file : List ℕ
  pub web_ui : List ℕ

pub record Config : Type 0 where
  pub mode : List ℕ
  pub team_key : List ℕ
  pub client : Option ClientConfig
  pub server : Option ServerConfig

-- "redundant"
abbrev pub redundant_name : List ℕ
redundant_name = 114 ∷ 101 ∷ 100 ∷ 117 ∷ 110 ∷ 100 ∷ 97 ∷ 110 ∷ 116 ∷ []

-- "failover"
abbrev pub failover_name : List ℕ
failover_name = 102 ∷ 97 ∷ 105 ∷ 108 ∷ 111 ∷ 118 ∷ 101 ∷ 114 ∷ []

-- "client"
abbrev pub client_mode : List ℕ
client_mode = 99 ∷ 108 ∷ 105 ∷ 101 ∷ 110 ∷ 116 ∷ []

-- "server"
abbrev pub server_mode : List ℕ
server_mode = 115 ∷ 101 ∷ 114 ∷ 118 ∷ 101 ∷ 114 ∷ []

-- "ip_pool.json"
abbrev pub default_pool_file : List ℕ
default_pool_file = 105 ∷ 112 ∷ 95 ∷ 112 ∷ 111 ∷ 111 ∷ 108 ∷ 46 ∷ 106 ∷ 115 ∷ 111 ∷ 110 ∷ []

abbrev pub is_empty : List ℕ → Bool
is_empty [] = true
is_empty (c ∷ cs) = false

abbrev pub default_string : List ℕ → List ℕ → List ℕ
default_string d [] = d
default_string d (c ∷ cs) = c ∷ cs

abbrev pub default_int : ℕ → ℤ → ℤ
default_int d (pos n) = if n == 0 then pos d else pos n
default_int d (negsuc n) = negsuc n

abbrev pub client_defaults : ClientConfig → ClientConfig
client_defaults cc = record cc {
  send_mode = default_string redundant_name cc.send_mode;
  mtu = pos 1400;
  dedup_window = default_int 4096 cc.dedup_window;
}

abbrev pub server_defaults : ServerConfig → ServerConfig
server_defaults sc = record sc {
  client_timeout = default_int 15 sc.client_timeout;
  addr_timeout = default_int 5 sc.addr_timeout;
  dedup_window = default_int 4096 sc.dedup_window;
  mtu = pos 1400;
  ip_pool_file = default_string default_pool_file sc.ip_pool_file;
}

abbrev pub some_client : Option ClientConfig → Option ClientConfig
some_client none = none
some_client (some cc) = some (client_defaults cc)

abbrev pub some_server : Option ServerConfig → Option ServerConfig
some_server none = none
some_server (some sc) = some (server_defaults sc)

-- A section that is missing stays so.
unfoldable pub apply_defaults : Config → Config
apply_defaults cfg = record cfg { client = some_client cfg.client; server = some_server cfg.server }

pub data ConfigError : Type 0 where
  bad_mode team_key_required client_required server_required : ConfigError
  server_addr_required server_addr_invalid client_ip_invalid send_mode_invalid : ConfigError
  listen_addr_required listen_addr_invalid server_ip_required server_ip_invalid : ConfigError
  subnet_required subnet_invalid : ConfigError

pub data LoadError : Type 0 where
  read_failed parse_failed : LoadError
  invalid : ConfigError → LoadError

-- Whether net.SplitHostPort and net.ParseCIDR accept a string.
module _ (is_host_port is_cidr : List ℕ → Bool) where
  unfoldable pub validate_client : ClientConfig → Option ConfigError
  validate_client cc =
      if is_empty cc.server_addr
      then some server_addr_required
      else if not (is_host_port cc.server_addr)
      then some server_addr_invalid
      else if not (is_empty cc.virtual_ip) && not (is_cidr cc.virtual_ip)
      then some client_ip_invalid
      else if not (bytes_beq cc.send_mode redundant_name)
          && not (bytes_beq cc.send_mode failover_name)
      then some send_mode_invalid
      else none

  unfoldable pub validate_server : ServerConfig → Option ConfigError
  validate_server sc =
      if is_empty sc.listen_addr
      then some listen_addr_required
      else if not (is_host_port sc.listen_addr)
      then some listen_addr_invalid
      else if is_empty sc.virtual_ip
      then some server_ip_required
      else if not (is_cidr sc.virtual_ip)
      then some server_ip_invalid
      else if is_empty sc.subnet
      then some subnet_required
      else if not (is_cidr sc.subnet)
      then some subnet_invalid
      else none

  abbrev pub client_section : Option ClientConfig → Option ConfigError
  client_section none = some client_required
  client_section (some cc) = validate_client cc

  abbrev pub server_section : Option ServerConfig → Option ConfigError
  server_section none = some server_required
  server_section (some sc) = validate_server sc

  -- The error, or `none` for nil. Only the section that the mode names is looked at.
  unfoldable pub validate : Config → Option ConfigError
  validate c =
      if not (bytes_beq c.mode client_mode) && not (bytes_beq c.mode server_mode)
      then some bad_mode
      else if is_empty c.team_key
      then some team_key_required
      else if bytes_beq c.mode client_mode
      then client_section c.client
      else server_section c.server

  abbrev pub check_config : Config → Result LoadError Config
  check_config cfg = elim (validate cfg) [ none ↦ ok cfg | some e ↦ err (invalid e) ]

  abbrev pub parsed : Option Config → Result LoadError Config
  parsed none = err parse_failed
  parsed (some cfg) = check_config (apply_defaults cfg)

  -- yaml.Unmarshal, applied to what os.ReadFile returns: `files` holds the files that it can read.
  unfoldable pub load_config :
      (List ℕ → Option Config) → Map (List ℕ) (List ℕ) → List ℕ → Result LoadError Config
  load_config unmarshal files path = elim (lookup path files) [
    | none ↦ err read_failed
    | some data' ↦ parsed (unmarshal data')
  ]

pub data SaveError : Type 0 where
  marshal_failed write_failed : SaveError

-- The files after the call. `can_write` is whether os.WriteFile succeeds.
unfoldable pub save_config :
    (Config → Option (List ℕ))
    → Bool
    → Map (List ℕ) (List ℕ)
    → List ℕ
    → Config
    → Result SaveError (Map (List ℕ) (List ℕ))
save_config marshal can_write files path cfg = elim (marshal cfg) [
  | none ↦ err marshal_failed
  | some data' ↦ if can_write then ok (insert path data' files) else err write_failed
]
