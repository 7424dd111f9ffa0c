-- ===== src/Gui.antt =====
-- cmd/mpfpv-gui/controller.go: the controller behind the GUI's endpoints. Each critical section of the
-- lock is a step, with what the code does up to the next one.
pub mod Single
pub mod Saving
pub mod Endpoints
use mpfpv.Prelude.{ℕ, ◌+◌, List, [], ◌∷◌, Bool, true, false, Option, none, some, if◌then◌else◌}
use mpfpv.Prelude.Outcome.{Result, ok, err}
use mpfpv.Config.{Config, ClientConfig, ConfigError, SaveError, client_mode, some_client}
use mpfpv.Client.State.{Client, NewError}
use mpfpv.Lifecycle.{
  Outside, Files, validated, saved, created, with_client_id, ClientRun, launched, find_run,
  cancel_some, stop_run, remove_run, can_finish, can_fail,
}

pub data SaveFailure : Type 0 where
  invalid_config : ConfigError → SaveFailure
  not_saved : SaveError → SaveFailure

pub data ConnectError : Type 0 where
  already_connected no_client_section : ConnectError
  not_created : NewError → ConnectError

-- The text of `lastError`.
pub data Fault : Type 0 where
  no_fault : Fault
  creation_failed : NewError → Fault
  run_failed : List ℕ → Fault

-- A client and a cancel function are the number of their run. The two callbacks may be nil.
pub record Controller : Type 0 where
  pub cfg : Option Config
  pub cfg_path : List ℕ
  pub client : Option ℕ
  pub cancel_func : Option ℕ
  pub connected : Bool
  pub last_error : Fault
  pub has_on_client_ready : Bool
  pub has_on_client_stop : Bool

pub record System : Type 0 where
  pub controller : Controller
  pub runs : List ClientRun
  pub files : Files
  pub next : ℕ

-- A call of onClientReady with a client, and of onClientStop.
pub data Notice : Type 0 where
  client_ready : ℕ → Notice
  client_stop : Notice

abbrev pub new_controller : Option Config → List ℕ → Controller
new_controller cfg path = record {
  cfg = cfg;
  cfg_path = path;
  client = none;
  cancel_func = none;
  connected = false;
  last_error = no_fault;
  has_on_client_ready = false;
  has_on_client_stop = false;
}

-- The mode is forced; the section's defaults are those of the configuration.
abbrev pub gui_defaults : Config → Config
gui_defaults cfg = record cfg { mode = client_mode; client = some_client cfg.client }

abbrev pub with_files : Config → System → Result SaveError Files → System × Option SaveFailure
with_files cfg s (err e) = (s, some (not_saved e))
with_files cfg s (ok files) =
    (record s { controller = record s.controller { cfg = some cfg }; files = files }, none)

abbrev pub checked : Outside → Config → System → Option ConfigError → System × Option SaveFailure
checked w cfg s (some e) = (s, some (invalid_config e))
checked w cfg s none = with_files cfg s (saved w s.files s.controller.cfg_path cfg)

-- SaveConfig, with its error.
unfoldable pub save_config : Outside → Config → System → System × Option SaveFailure
save_config w cfg s = checked w (gui_defaults cfg) s (validated w (gui_defaults cfg))

abbrev pub Connected : Type 0
Connected = (System × List Notice) × Option ConnectError

abbrev ready_notice : Bool → ℕ → List Notice
ready_notice has n = if has then client_ready n ∷ [] else []

abbrev pub with_client : Config → System → Result NewError Client → Connected
with_client cfg s (err e) = (
  (record s { controller = record s.controller { last_error = creation_failed e } }, []),
  some (not_created e),
)
with_client cfg s (ok cli) = (
  (
    record s {
      controller = record s.controller {
        cfg = some (with_client_id cli.client_id cfg);
        client = some s.next;
        cancel_func = some s.next;
        connected = true;
        last_error = no_fault;
      };
      runs = launched s.next ∷ s.runs;
      next = s.next + 1;
    },
    ready_notice s.controller.has_on_client_ready s.next,
  ),
  none,
)

abbrev pub with_section : Outside → System → Config → Option ClientConfig → Connected
with_section w s cfg none = ((s, []), some no_client_section)
with_section w s cfg (some cc) = with_client cfg s (created w cfg)

abbrev pub with_config : Outside → System → Option Config → Connected
with_config w s none = ((s, []), some no_client_section)
with_config w s (some cfg) = with_section w s cfg cfg.client

unfoldable pub connect : Outside → System → Connected
connect w s =
    if s.controller.connected
    then ((s, []), some already_connected)
    else with_config w s s.controller.cfg

-- The goroutine sets `connected` to false when Run returns.
unfoldable pub disconnect : System → System
disconnect s =
    if s.controller.connected
    then record s {
      controller = record s.controller { cancel_func = none };
      runs = cancel_some s.controller.cancel_func s.runs;
    }
    else s

-- The client's goroutine: Run has returned an error, which is noted first.
unfoldable pub run_fails : ℕ → List ℕ → System → System
run_fails n error s =
    if can_fail (find_run n s.runs)
    then record s {
      controller = record s.controller { last_error = run_failed error };
      runs = stop_run n s.runs;
    }
    else s

-- The last lines of the client's goroutine.
unfoldable pub run_ends : ℕ → System → System × List Notice
run_ends n s =
    if can_finish (find_run n s.runs)
    then (
      record s {
        controller = record s.controller { connected = false; client = none };
        runs = remove_run n s.runs;
      },
      if s.controller.has_on_client_stop then client_stop ∷ [] else [],
    )
    else (s, [])
