-- ===== src/Mobile/Steps.antt =====
-- Start, Stop, the two goroutines, the callback for a TUN device and the queries of mobile/mobile.go.
use mpfpv.Prelude.{
  ℕ, ◌+◌, List, [], ◌∷◌, ◌++◌, Bool, true, false, not, ◌||◌, ◌&&◌, Option, none, some, ◌==◌,
  if◌then◌else◌, bytes_beq,
}
use mpfpv.Prelude.Outcome.{Result, ok, err}
use mpfpv.Config.{is_empty}
use mpfpv.Client.State.{Client, NewError}
use mpfpv.Lifecycle.{Outside, ClientRun, launched, find_run, cancel_some, remove_run}
use mpfpv.Mobile.{
  StartArgs, Starting, Poller, System, Told, protect_socket, tun_request, status_change,
  mobile_client,
}
use mpfpv.Mobile.Port.{Target, web_port_of}

unfoldable pub find_start : ℕ → List Starting → Option Starting
find_start n [] = none
find_start n (x ∷ xs) = if x.number == n then some x else find_start n xs

unfoldable pub remove_start : ℕ → List Starting → List Starting
remove_start n [] = []
remove_start n (x ∷ xs) = let rest = remove_start n xs in if x.number == n then rest else x ∷ rest

unfoldable pub find_poller : ℕ → List Poller → Option Poller
find_poller n [] = none
find_poller n (p ∷ ps) = if p.number == n then some p else find_poller n ps

unfoldable pub cancel_poller : ℕ → List Poller → List Poller
cancel_poller n [] = []
cancel_poller n (p ∷ ps) =
    (if p.number == n then record p { cancelled = true } else p) ∷ cancel_poller n ps

abbrev cancel_some_poller : Option ℕ → List Poller → List Poller
cancel_some_poller none ps = ps
cancel_some_poller (some n) ps = cancel_poller n ps

unfoldable pub note_status : ℕ → Bool → List ℕ → List Poller → List Poller
note_status n connected ip [] = []
note_status n connected ip (p ∷ ps) =
    (if p.number == n then record p { last_connected = connected; last_ip = ip } else p)
    ∷ note_status n connected ip ps

unfoldable pub remove_poller : ℕ → List Poller → List Poller
remove_poller n [] = []
remove_poller n (p ∷ ps) = let rest = remove_poller n ps in if p.number == n then rest else p ∷ rest

-- Start up to the end of its first critical section, and on to the callback's registration.
unfoldable pub start_begins : StartArgs → System → System
start_begins a s = if s.globals.running then s else record s {
  android_id = a.machine_id;
  tun_callback = some a.callback;
  starts = record { number = s.next; args = a } ∷ s.starts;
  next = s.next + 1;
}

abbrev pub launch : Target → ℕ → StartArgs → System → System
launch target n a s = record s {
  globals = record s.globals {
    cli = some n;
    cancel = some n;
    running = true;
    callback = some a.callback;
    web_port =
        if is_empty a.web_ui_addr
        then s.globals.web_port
        else web_port_of target s.globals.web_port a.web_ui_addr;
  };
  runs = launched n ∷ s.runs;
  pollers =
      record { number = n; cancelled = false; last_connected = false; last_ip = [] } ∷ s.pollers;
}

-- The rest of Start, after client.New: an error returns. The port is stored at once, since nothing
-- else writes it.
abbrev pub with_client : Target → Bool → ℕ → StartArgs → System → Result NewError Client → System
with_client target can_listen n a s (err e) = s
with_client target can_listen n a s (ok c) = if can_listen then launch target n a s else s

abbrev pub with_start : Outside → Target → Bool → System → Option Starting → System
with_start w target can_listen s none = s
with_start w target can_listen s (some x) =
    with_client target can_listen x.number x.args
      (record s { starts = remove_start x.number s.starts }) (mobile_client w s.android_id x.args)

unfoldable pub start_sets : Outside → Target → Bool → ℕ → System → System
start_sets w target can_listen n s = with_start w target can_listen s (find_start n s.starts)

unfoldable pub stop : System → System
stop s = record s {
  globals = record s.globals { cancel = none; running = false; callback = none };
  runs = cancel_some s.globals.cancel s.runs;
  pollers = cancel_some_poller s.globals.cancel s.pollers;
}

-- The client has its socket from Start, so that Run only returns when it is cancelled.
abbrev pub is_cancelled : Option ClientRun → Bool
is_cancelled none = false
is_cancelled (some r) = r.cancelled

unfoldable pub run_ends : ℕ → System → System
run_ends n s =
    if is_cancelled (find_run n s.runs)
    then record s {
      globals = record s.globals { running = false; cli = none };
      runs = remove_run n s.runs;
    }
    else s

abbrev tell : ℕ → ℕ → Client → Poller → System → System × List Told
tell n cb c p s =
    if not (bytes_beq c.virtual_ip p.last_ip)
      || (c.registered && not p.last_connected || not c.registered && p.last_connected)
    then (
      record s { pollers = note_status n c.registered c.virtual_ip s.pollers },
      status_change cb c.registered c.virtual_ip ∷ [],
    )
    else (s, [])

abbrev polled : (ℕ → Client) → Option Poller → Option ℕ → Option ℕ → System → System × List Told
polled clients (some p) (some n) (some cb) s = tell p.number cb (clients n) p s
polled clients (some p) (some n) none s = (s, [])
polled clients (some p) none o s = (s, [])
polled clients none o o' s = (s, [])

-- A second of the poller has passed. `clients` holds the clients as their loops have left them.
unfoldable pub polls : (ℕ → Client) → ℕ → System → System × List Told
polls clients n s = polled clients (find_poller n s.pollers) s.globals.cli s.globals.callback s

abbrev pub is_over : Option Poller → Bool
is_over none = false
is_over (some p) = p.cancelled

unfoldable pub poll_done : ℕ → System → System
poll_done n s =
    if is_over (find_poller n s.pollers)
    then record s { pollers = remove_poller n s.pollers }
    else s

abbrev protects : ℕ → Option ℕ → List Told
protects cb none = []
protects cb (some fd) = protect_socket cb fd ∷ []

-- The callback that SetTunRequestCallback has registered; `socket_fd` is SocketFD, where it is not -1.
unfoldable pub request_tun : (ℕ → Option ℕ) → List ℕ → ℕ → ℕ → System → List Told
request_tun socket_fd ip prefix_len mtu s = elim s.tun_callback [
  | none ↦ []
  | some cb ↦
      elim s.globals.cli [ none ↦ [] | some n ↦ protects cb (socket_fd n) ]
      ++ tun_request cb ip prefix_len mtu ∷ []
]

unfoldable pub is_connected : (ℕ → Client) → System → Bool
is_connected clients s = elim s.globals.cli [ none ↦ false | some n ↦ (clients n).registered ]

unfoldable pub get_virtual_ip : (ℕ → Client) → System → List ℕ
get_virtual_ip clients s = elim s.globals.cli [ none ↦ [] | some n ↦ (clients n).virtual_ip ]
