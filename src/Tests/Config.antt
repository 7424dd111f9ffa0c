-- ===== src/Tests/Config.antt =====
-- Configurations of internal/config/config.go: a valid one, its file, and a client made from it.
use mpfpv.Prelude.{
  ℕ, ◌≡◌, ◌↔◌, ◌+◌, refl, List, [], ◌∷◌, Bool, true, false, Option, none, some, length, ◌==◌,
  bytes_beq, bytes_eq,
}
use mpfpv.Prelude.Int.{pos}
use mpfpv.Prelude.Map.{Map, lookup, insert}
use mpfpv.Prelude.Outcome.{ok}
use mpfpv.Config.{
  Config, ClientConfig, client_mode, failover_name, apply_defaults, validate, validate_client,
  load_config, save_config,
}
use mpfpv.Config.Valid.{IsValid, validate_iff}
use mpfpv.Config.Files.{load_config-save_config}
use mpfpv.Client.State.{Client, start, new}

-- "a:1"
abbrev server : List ℕ
server = 97 ∷ 58 ∷ 49 ∷ []

abbrev pub section : ClientConfig
section = record {
  client_id = 0;
  virtual_ip = [];
  device_name = 112 ∷ 99 ∷ [];
  server_addr = server;
  send_mode = failover_name;
  mtu = pos 1400;
  dedup_window = pos 64;
  excluded_interfaces = [];
  bind_interface = [];
  web_ui = [];
}

abbrev pub config : Config
config = record { mode = client_mode; team_key = 107 ∷ []; client = some section; server = none }

abbrev is_host_port : List ℕ → Bool
is_host_port s = length s == 3

abbrev is_cidr : List ℕ → Bool
is_cidr s = false

validate_iff_example :
    (validate is_host_port is_cidr config ≡ none) ↔ IsValid is_host_port is_cidr config
validate_iff_example = validate_iff is_host_port is_cidr config

-- A format with one file, that of the configuration.
abbrev marshal : Config → Option (List ℕ)
marshal cfg = some (1 ∷ [])

abbrev unmarshal : List ℕ → Option Config
unmarshal text = some config

abbrev files : Map (List ℕ) (List ℕ)
files = (5 ∷ [], 1 ∷ []) ∷ []

abbrev files' : Map (List ℕ) (List ℕ)
files' = (5 ∷ [], 1 ∷ []) ∷ (6 ∷ [], 1 ∷ []) ∷ []

loaded : load_config is_host_port is_cidr unmarshal files (5 ∷ []) ≡ ok config
unfolding load_config lookup bytes_beq validate validate_client apply_defaults
loaded = refl

saved : save_config marshal true files (6 ∷ []) config ≡ ok files'
unfolding save_config insert bytes_beq
saved = refl

load_config-save_config_example :
    load_config is_host_port is_cidr unmarshal files' (6 ∷ []) ≡ ok config
load_config-save_config_example =
    load_config-save_config is_host_port is_cidr unmarshal marshal files files' (5 ∷ []) (6 ∷ [])
      config loaded (λ text e. refl) saved

abbrev pub hash : List ℕ → ℕ
hash s = 70000 + length s

abbrev pub sha256 : List ℕ → List ℕ
sha256 s = 1 ∷ 2 ∷ 3 ∷ 4 ∷ 5 ∷ 6 ∷ 7 ∷ 8 ∷ 9 ∷ []

abbrev pub resolves : List ℕ → Bool
resolves s = true

abbrev pub client : Client
client = start hash (3 ∷ []) sha256 resolves [] (107 ∷ []) section

pub made : new hash (3 ∷ []) sha256 resolves [] config ≡ ok client
unfolding new
made = refl
