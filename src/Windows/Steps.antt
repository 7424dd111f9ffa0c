-- ===== src/Windows/Steps.antt =====
-- Disconnect, the end of the client's goroutine, the rounds of watchNetwork, GetStatus and GetConfig of
-- windows/controller.go.
use mpfpv.Prelude.{
  ℕ, List, [], ◌∷◌, Bool, true, false, ◌||◌, Option, none, some, ◌==◌, if◌then◌else◌, bytes_beq,
}
use mpfpv.Config.{Config, ClientConfig, is_empty}
use mpfpv.Client.State.{Client}
use mpfpv.Lifecycle.{Outside, find_run, cancel_some, stop_run, remove_run, can_finish, can_fail}
use mpfpv.Windows.{
  ConnectRequest, Controller, Fault, run_failed, System, Watch, WatchPhase, watching, disconnecting,
  waiting, connect_locked, get_interface_ip, with_error,
}

unfoldable pub find_watch : ℕ → List Watch → Option Watch
find_watch n [] = none
find_watch n (v ∷ vs) = if v.number == n then some v else find_watch n vs

unfoldable pub cancel_watch : ℕ → List Watch → List Watch
cancel_watch n [] = []
cancel_watch n (v ∷ vs) =
    (if v.number == n then record v { cancelled = true } else v) ∷ cancel_watch n vs

abbrev cancel_some_watch : Option ℕ → List Watch → List Watch
cancel_some_watch none vs = vs
cancel_some_watch (some n) vs = cancel_watch n vs

unfoldable pub enter_phase : ℕ → WatchPhase → List Watch → List Watch
enter_phase n phase [] = []
enter_phase n phase (v ∷ vs) =
    (if v.number == n then record v { phase = phase } else v) ∷ enter_phase n phase vs

unfoldable pub remove_watch : ℕ → List Watch → List Watch
remove_watch n [] = []
remove_watch n (v ∷ vs) = let rest = remove_watch n vs in if v.number == n then rest else v ∷ rest

unfoldable pub disconnect_locked : System → System
disconnect_locked s =
    if s.controller.connected
    then record s {
      controller = record s.controller { stop_watch = none; cancel_func = none };
      runs = cancel_some s.controller.cancel_func s.runs;
      watches = cancel_some_watch s.controller.stop_watch s.watches;
    }
    else s

unfoldable pub disconnect : System → System
unfolding disconnect_locked
disconnect s =
    let s' = disconnect_locked s in
    record s' { controller = record s'.controller { last_req = none } }

-- The client's goroutine: Run has returned an error, which is noted first.
unfoldable pub run_fails : ℕ → List ℕ → System → System
run_fails n error s =
    if can_fail (find_run n s.runs)
    then with_error (run_failed error) (record s { runs = stop_run n s.runs })
    else s

-- The last lines of the client's goroutine.
unfoldable pub run_ends : ℕ → System → System
run_ends n s =
    if can_finish (find_run n s.runs)
    then record s {
      controller = record s.controller { connected = false; client = none };
      runs = remove_run n s.runs;
    }
    else s

abbrev pub leave : ℕ → System → System
leave n s = record s { watches = remove_watch n s.watches }

-- A tick: the current address against the one that the client was started with.
abbrev compare_ip : ℕ → List ℕ → ConnectRequest → System → System
compare_ip n current req s =
    if bytes_beq current s.controller.bound_ip || is_empty current
    then s
    else record s { watches = enter_phase n (disconnecting req) s.watches }

abbrev pub watched : Outside → ℕ → Option ConnectRequest → System → System
watched w n none s = leave n s
watched w n (some req) s =
    if s.controller.connected
    then compare_ip n (get_interface_ip w req.bind_interface) req s
    else leave n s

-- The watcher's next turn with the lock. It waits as long as the old client runs, and then connects
-- with the request that it has copied.
abbrev pub turn : Outside → ℕ → WatchPhase → System → System
turn w n watching s = watched w n s.controller.last_req s
turn w n (disconnecting req) s =
    let s' = disconnect_locked s in record s' { watches = enter_phase n (waiting req) s'.watches }
turn w n (waiting req) s = if s.controller.connected then s else leave n (connect_locked w req s).0

unfoldable pub watch_turn : Outside → ℕ → System → System
watch_turn w n s = elim (find_watch n s.watches) [ none ↦ s | some v ↦ turn w n v.phase s ]

abbrev pub is_over : Option Watch → Bool
is_over none = false
is_over (some v) = elim v.phase [
  | watching ↦ v.cancelled
  | disconnecting req ↦ false
  | waiting req ↦ false
]

-- A cancelled watcher returns, but only from its select.
unfoldable pub watch_done : ℕ → System → System
watch_done n s = if is_over (find_watch n s.watches) then leave n s else s

pub data Event : Type 0 where
  connects : ConnectRequest → Event
  disconnects : Event
  fails : ℕ → List ℕ → Event
  ends turns done : ℕ → Event

unfoldable pub step : Outside → System → Event → System
step w s (connects req) = (connect_locked w req s).0
step w s disconnects = disconnect s
step w s (fails n error) = run_fails n error s
step w s (ends n) = run_ends n s
step w s (turns n) = watch_turn w n s
step w s (done n) = watch_done n s

-- The steps in their order, each with what the outside answers.
unfoldable pub run : System → List (Outside × Event) → System
run s [] = s
run s ((w, event) ∷ rest) = run (step w s event) rest

pub record SimpleStatus : Type 0 where
  pub connected : Bool
  pub virtual_ip : List ℕ
  pub nic_name : List ℕ
  pub error : Fault

abbrev nic_name_of : Option Config → List ℕ
nic_name_of none = []
nic_name_of (some cfg) = elim cfg.client [ none ↦ [] | some cc ↦ cc.bind_interface ]

-- `clients` holds the client of each run, as its loops have left it.
unfoldable pub get_status : (ℕ → Client) → Controller → SimpleStatus
get_status clients c =
    let own : SimpleStatus = record {
      connected = c.connected;
      virtual_ip = [];
      nic_name = nic_name_of c.cfg;
      error = c.last_error;
    } in
    elim c.client [
      | none ↦ own
      | some n ↦ record own {
        connected = (clients n).registered;
        virtual_ip = (clients n).virtual_ip;
      }
    ]

abbrev section_info : ConnectRequest → Option ClientConfig → ConnectRequest
section_info info none = info
section_info info (some cc) = record info {
  server_addr = cc.server_addr;
  bind_interface = cc.bind_interface;
}

-- ConfigInfo has the fields of a request.
unfoldable pub get_config : Controller → ConnectRequest
get_config c =
    let empty : ConnectRequest = record { server_addr = []; team_key = []; bind_interface = [] } in
    elim c.cfg [
      | none ↦ empty
      | some cfg ↦ section_info (record empty { team_key = cfg.team_key }) cfg.client
    ]
