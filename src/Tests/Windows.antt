-- ===== src/Tests/Windows.antt =====
-- The controller of windows/controller.go: a network change, and a Disconnect while the watcher waits.
use mpfpv.Prelude.{
  ℕ, ◌≡◌, refl, List, [], ◌∷◌, Bool, true, false, Option, none, some, ◌==◌, length, bytes_beq,
  bytes_eq,
}
use mpfpv.Prelude.Int.{pos}
use mpfpv.Prelude.Map.{insert}
use mpfpv.Prelude.Outcome.{ok}
use mpfpv.Config.{Config, validate, validate_client, save_config, load_config}
use mpfpv.Client.State.{Client, start, new}
use mpfpv.Lifecycle.{
  Outside, launched, find_run, cancel_run, remove_run, created, validated, AllCancelled,
}
use mpfpv.Windows.{
  ConnectRequest, System, new_system, connect_locked, request_config, trim_prefix, trim_slashes,
  first_routable, Watch, waiting,
}
use mpfpv.Windows.Steps.{
  Event, connects, ends, turns, step, run, run_ends, watch_turn, find_watch, enter_phase,
  cancel_watch, disconnect_locked, disconnect,
}
use mpfpv.Windows.Single.{IsSingle, run-new_system-IsSingle}
use mpfpv.Windows.Reconnect.{watch_turn-reconnects}
use mpfpv.Windows.Saving.{connect_locked-load_config}
use mpfpv.Tests.Config.{hash, sha256, resolves}

abbrev host_port : List ℕ → Bool
host_port s = length s == 3

abbrev no_cidr : List ℕ → Bool
no_cidr s = false

abbrev text_of : Config → Option (List ℕ)
text_of cfg = some (1 ∷ [])

abbrev pub unchanged : List ℕ → List ℕ
unchanged s = s

-- The network with the last byte of the address of its interface.
abbrev pub network : ℕ → Outside
network last = record {
  is_host_port = host_port;
  is_cidr = no_cidr;
  resolves = resolves;
  marshal = text_of;
  can_write = true;
  fnv32a = hash;
  machine_id = 3 ∷ [];
  sha256 = sha256;
  hostname = 112 ∷ [];
  trim_space = unchanged;
  addrs_of = λ name. some (some ((192 ∷ 168 ∷ 1 ∷ last ∷ []) ∷ []));
}

-- "http://a:1/" over "e"
abbrev request : ConnectRequest
request = record {
  server_addr = 104 ∷ 116 ∷ 116 ∷ 112 ∷ 58 ∷ 47 ∷ 47 ∷ 97 ∷ 58 ∷ 49 ∷ 47 ∷ [];
  team_key = 107 ∷ [];
  bind_interface = 101 ∷ [];
}

abbrev path : List ℕ
path = 5 ∷ []

-- It connects, the address changes, the watcher disconnects, and the client ends.
abbrev changed_network : List (Outside × Event)
changed_network =
    (network 7, connects request)
    ∷ (network 8, turns 0)
    ∷ (network 8, turns 0)
    ∷ (network 8, ends 0)
    ∷ []

run-new_system-IsSingle_example :
    IsSingle (run (new_system path none []) changed_network)
    × AllCancelled (disconnect (run (new_system path none []) changed_network)).runs
run-new_system-IsSingle_example = run-new_system-IsSingle path none [] changed_network

abbrev waits : System
waits = run (new_system path none []) changed_network

abbrev watcher : Watch
watcher = record { number = 0; cancelled = true; phase = waiting request }

abbrev made_client : Client
made_client =
    record (start hash (3 ∷ []) sha256 resolves (112 ∷ []) (107 ∷ []) (record {
      client_id = 0;
      virtual_ip = [];
      device_name = [];
      server_addr = 97 ∷ 58 ∷ 49 ∷ [];
      send_mode = [];
      mtu = pos 1400;
      dedup_window = pos 4096;
      excluded_interfaces = [];
      bind_interface = 101 ∷ [];
      web_ui = [];
    })) { send_mode = 0 }

valid : validated (network 8) (request_config (network 8) request) ≡ none
unfolding validate validate_client trim_prefix trim_slashes bytes_beq
valid = refl

made : created (network 8) (request_config (network 8) request) ≡ ok made_client
unfolding new trim_prefix trim_slashes bytes_beq
made = refl

stopped : waits.controller.connected ≡ false
unfolding run step connect_locked run_ends watch_turn find_watch enter_phase cancel_watch
    disconnect_locked disconnect find_run cancel_run remove_run validate validate_client trim_prefix
    trim_slashes bytes_beq save_config insert new first_routable
stopped = refl

watched : find_watch 0 waits.watches ≡ some watcher
unfolding run step connect_locked run_ends watch_turn find_watch enter_phase cancel_watch
    disconnect_locked disconnect find_run cancel_run remove_run validate validate_client trim_prefix
    trim_slashes bytes_beq save_config insert new first_routable
watched = refl

-- The user disconnects while the watcher waits.
watch_turn-reconnects_example :
    ((watch_turn (network 8) 0 (disconnect waits)).controller.connected ≡ true)
    × ((watch_turn (network 8) 0 (disconnect waits)).controller.last_req ≡ some request)
    × ((watch_turn (network 8) 0 (disconnect waits)).runs ≡ launched waits.next ∷ waits.runs)
watch_turn-reconnects_example =
    watch_turn-reconnects (network 8) 0 waits watcher request made_client stopped watched refl refl
      valid made

abbrev empty_system : System
empty_system = new_system path none []

connected : (connect_locked (network 7) request empty_system).1 ≡ none
unfolding connect_locked validate validate_client trim_prefix trim_slashes bytes_beq new
connected = refl

connect_locked-load_config_example :
    load_config host_port no_cidr
      (λ text. some (request_config (network 7) request))
      (connect_locked (network 7) request empty_system).0.files
      path
    ≡ ok (request_config (network 7) request)
connect_locked-load_config_example =
    connect_locked-load_config (network 7) request empty_system
      (λ text. some (request_config (network 7) request)) (1 ∷ []) connected refl refl refl
