-- ===== src/Mobile.antt =====
-- mobile/mobile.go, with the machine's ID of internal/client/machineid_android.go: the client's
-- lifecycle on Android. Each critical section of the lock is a step, with what the code does up to the
-- next one; the goroutines and their waits are the order of the steps.
pub mod Port
pub mod Steps
pub mod Restart
use mpfpv.Prelude.Int.{ℤ, pos}
use mpfpv.Prelude.{
  ℕ, ◌+◌, List, [], ◌∷◌, Bool, true, false, Option, none, some, ◌==◌, if◌then◌else◌,
}
use mpfpv.Prelude.Outcome.{Result, ok, err}
use mpfpv.Config.{Config, ClientConfig, is_empty, client_mode, redundant_name}
use mpfpv.Client.State.{Client, NewError}
use mpfpv.Lifecycle.{Outside, ClientRun, launched, created}

-- The arguments of Start; the callback is a number.
pub record StartArgs : Type 0 where
  pub server_addr : List ℕ
  pub team_key : List ℕ
  pub device_name : List ℕ
  pub machine_id : List ℕ
  pub web_ui_addr : List ℕ
  pub callback : ℕ

-- The package's variables. A client and a cancel function are the number of their run.
pub record Globals : Type 0 where
  pub cli : Option ℕ
  pub cancel : Option ℕ
  pub running : Bool
  pub callback : Option ℕ
  pub web_port : ℤ

-- A call of Start that has seen that no client runs.
pub record Starting : Type 0 where
  pub number : ℕ
  pub args : StartArgs

-- The goroutine that polls the status, with what it has told last.
pub record Poller : Type 0 where
  pub number : ℕ
  pub cancelled : Bool
  pub last_connected : Bool
  pub last_ip : List ℕ

pub record System : Type 0 where
  pub globals : Globals
  pub android_id : List ℕ
  pub tun_callback : Option ℕ
  pub starts : List Starting
  pub runs : List ClientRun
  pub pollers : List Poller
  pub next : ℕ

-- A call of one of the callback's functions.
pub data Told : Type 0 where
  protect_socket : ℕ → ℕ → Told
  tun_request : ℕ → List ℕ → ℕ → ℕ → Told
  status_change : ℕ → Bool → List ℕ → Told

abbrev new_globals : Globals
new_globals = record {
  cli = none;
  cancel = none;
  running = false;
  callback = none;
  web_port = pos 0;
}

abbrev pub new_system : System
new_system = record {
  globals = new_globals;
  android_id = [];
  tun_callback = none;
  starts = [];
  runs = [];
  pollers = [];
  next = 0;
}

-- "android-unknown"
abbrev unknown_id : List ℕ
unknown_id =
    97 ∷ 110 ∷ 100 ∷ 114 ∷ 111 ∷ 105 ∷ 100 ∷ 45 ∷ 117 ∷ 110 ∷ 107 ∷ 110 ∷ 111 ∷ 119 ∷ 110 ∷ []

abbrev machine_id_of : List ℕ → List ℕ
machine_id_of id = if is_empty id then unknown_id else id

abbrev start_config : StartArgs → Config
start_config a = record {
  mode = client_mode;
  team_key = a.team_key;
  client = some (record {
    client_id = 0;
    virtual_ip = [];
    device_name = a.device_name;
    server_addr = a.server_addr;
    send_mode = redundant_name;
    mtu = pos 1400;
    dedup_window = pos 4096;
    excluded_interfaces = [];
    bind_interface = [];
    web_ui = a.web_ui_addr;
  });
  server = none;
}

-- "Mobile"
abbrev pub mobile_path : List ℕ
mobile_path = 77 ∷ 111 ∷ 98 ∷ 105 ∷ 108 ∷ 101 ∷ []

-- The client that Start makes: SetVirtualPath gives its single socket a name.
abbrev pub mobile_client : Outside → List ℕ → StartArgs → Result NewError Client
mobile_client w android_id a =
    elim (created (record w { machine_id = machine_id_of android_id }) (start_config a)) [
      | ok c ↦ ok (record c { virtual_path_name = mobile_path })
      | err e ↦ err e
    ]
