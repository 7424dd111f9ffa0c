-- ===== src/Windows.antt =====
-- windows/controller.go: the controller of the simplified GUI, its client's goroutine and its watcher
-- of the bound interface. Each critical section of the lock is a step; the locks, tickers and sleeps
-- are the order of the steps.
pub mod Steps
pub mod Single
pub mod Reconnect
pub mod Saving
use mpfpv.Prelude.{
  ℕ, ◌+◌, List, [], ◌∷◌, Bool, true, false, not, ◌&&◌, ◌||◌, Option, none, some, ◌==◌,
  if◌then◌else◌, take, drop, length, get_or, bytes_beq,
}
use mpfpv.Prelude.Int.{pos}
use mpfpv.Prelude.Outcome.{Result, ok, err}
use mpfpv.Protocol.Packet.{to4}
use mpfpv.Config.{Config, ConfigError, is_empty, client_mode, redundant_name}
use mpfpv.Client.State.{Client, NewError}
use mpfpv.Lifecycle.{
  Outside, Files, validated, saved, created, with_client_id, active, stopping, ClientRun, launched,
  find_run, cancel_some, stop_run, remove_run, can_finish, can_fail,
}

pub record ConnectRequest : Type 0 where
  pub server_addr : List ℕ
  pub team_key : List ℕ
  pub bind_interface : List ℕ

-- The text of `lastError`.
pub data Fault : Type 0 where
  no_fault no_interface_selected : Fault
  config_rejected : ConfigError → Fault
  creation_failed : NewError → Fault
  run_failed : List ℕ → Fault

pub data ConnectError : Type 0 where
  already_connected no_interface : ConnectError
  invalid_config : ConfigError → ConnectError
  not_created : NewError → ConnectError

-- A client and a cancel function are the number of their run or watcher.
pub record Controller : Type 0 where
  pub cfg_path : List ℕ
  pub cfg : Option Config
  pub client : Option ℕ
  pub cancel_func : Option ℕ
  pub connected : Bool
  pub last_error : Fault
  pub last_req : Option ConnectRequest
  pub bound_ip : List ℕ
  pub stop_watch : Option ℕ

-- A watcher waits for its ticker; has seen a new address, and goes on to disconnect; or waits for the
-- old client to stop, with the request that it connects with then.
pub data WatchPhase : Type 0 where
  watching : WatchPhase
  disconnecting waiting : ConnectRequest → WatchPhase

pub record Watch : Type 0 where
  pub number : ℕ
  pub cancelled : Bool
  pub phase : WatchPhase

pub record System : Type 0 where
  pub controller : Controller
  pub runs : List ClientRun
  pub watches : List Watch
  pub files : Files
  pub next : ℕ

abbrev pub new_controller : List ℕ → Option Config → Controller
new_controller path cfg = record {
  cfg_path = path;
  cfg = cfg;
  client = none;
  cancel_func = none;
  connected = false;
  last_error = no_fault;
  last_req = none;
  bound_ip = [];
  stop_watch = none;
}

abbrev pub new_system : List ℕ → Option Config → Files → System
new_system path cfg files = record {
  controller = new_controller path cfg;
  runs = [];
  watches = [];
  files = files;
  next = 0;
}

-- "http://" and "https://"
abbrev http_prefix : List ℕ
http_prefix = 104 ∷ 116 ∷ 116 ∷ 112 ∷ 58 ∷ 47 ∷ 47 ∷ []

abbrev https_prefix : List ℕ
https_prefix = 104 ∷ 116 ∷ 116 ∷ 112 ∷ 115 ∷ 58 ∷ 47 ∷ 47 ∷ []

-- strings.TrimPrefix
unfoldable pub trim_prefix : List ℕ → List ℕ → List ℕ
trim_prefix prefix s =
    if bytes_beq (take (length prefix) s) prefix then drop (length prefix) s else s

-- strings.TrimRight(s, "/")
unfoldable pub trim_slashes : List ℕ → List ℕ
trim_slashes [] = []
trim_slashes (c ∷ cs) =
    let rest = trim_slashes cs in if c == 47 && is_empty rest then [] else c ∷ rest

abbrev clean_addr : Outside → List ℕ → List ℕ
clean_addr w addr =
    trim_slashes (trim_prefix https_prefix (trim_prefix http_prefix (w.trim_space addr)))

abbrev pub request_config : Outside → ConnectRequest → Config
request_config w req = record {
  mode = client_mode;
  team_key = req.team_key;
  client = some (record {
    client_id = 0;
    virtual_ip = [];
    device_name = [];
    server_addr = clean_addr w req.server_addr;
    send_mode = redundant_name;
    mtu = pos 1400;
    dedup_window = pos 4096;
    excluded_interfaces = [];
    bind_interface = req.bind_interface;
    web_ui = [];
  });
  server = none;
}

-- The first IPv4 address that is not link-local. An address stands for its text, [] for none.
unfoldable pub first_routable : List (List ℕ) → List ℕ
unfolding to4
first_routable [] = []
first_routable (ip ∷ rest) =
    let later = first_routable rest in
    elim (to4 ip) [
      | none ↦ later
      | some ip4 ↦ if not (get_or ip4 0 0 == 169 && get_or ip4 1 0 == 254) then ip4 else later
    ]

abbrev addrs_ip : Option (Option (List (List ℕ))) → List ℕ
addrs_ip none = []
addrs_ip (some none) = []
addrs_ip (some (some addrs)) = first_routable addrs

abbrev pub get_interface_ip : Outside → List ℕ → List ℕ
get_interface_ip w name = addrs_ip (w.addrs_of name)

abbrev pub with_error : Fault → System → System
with_error fault s = record s { controller = record s.controller { last_error = fault } }

-- connectLocked from the new client on: two goroutines start.
abbrev pub launch : Outside → ConnectRequest → Config → Client → System → System
launch w req cfg cli s = record s {
  controller = record s.controller {
    cfg = some (with_client_id cli.client_id cfg);
    client = some s.next;
    cancel_func = some s.next;
    connected = true;
    last_error = no_fault;
    last_req = some req;
    bound_ip = get_interface_ip w req.bind_interface;
    stop_watch = some s.next;
  };
  runs = launched s.next ∷ s.runs;
  watches = record { number = s.next; cancelled = false; phase = watching } ∷ s.watches;
  next = s.next + 1;
}

abbrev pub with_client :
    Outside
    → ConnectRequest
    → Config
    → System
    → Result NewError Client
    → System × Option ConnectError
with_client w req cfg s (err e) = (with_error (creation_failed e) s, some (not_created e))
with_client w req cfg s (ok cli) = (launch w req cfg cli s, none)

-- An error of SaveConfig is only logged.
abbrev pub with_saved : Outside → Config → System → System
with_saved w cfg s = record s {
  controller = record s.controller { cfg = some cfg };
  files = elim (saved w s.files s.controller.cfg_path cfg) [ ok files ↦ files | err e ↦ s.files ];
}

abbrev pub with_config :
    Outside → ConnectRequest → Config → System → Option ConfigError → System × Option ConnectError
with_config w req cfg s (some e) = (with_error (config_rejected e) s, some (invalid_config e))
with_config w req cfg s none = with_client w req cfg (with_saved w cfg s) (created w cfg)

unfoldable pub connect_locked : Outside → ConnectRequest → System → System × Option ConnectError
connect_locked w req s =
    if s.controller.connected
    then (s, some already_connected)
    else if is_empty req.bind_interface
    then (with_error no_interface_selected s, some no_interface)
    else with_config w req (request_config w req) s (validated w (request_config w req))
