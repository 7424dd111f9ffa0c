-- ===== src/Gui/Endpoints.antt =====
-- registerGUIEndpoints and listPhysicalInterfaces of internal/web/handler.go, over the controller of
-- cmd/mpfpv-gui/controller.go. An answer is its status.
use mpfpv.Prelude.{
  ℕ, List, [], ◌∷◌, ◌++◌, Bool, not, ◌&&◌, ◌||◌, Option, none, some, ◌==◌, leb, if◌then◌else◌,
  get_or,
}
use mpfpv.Protocol.Packet.{to4}
use mpfpv.Config.{Config}
use mpfpv.Lifecycle.{Outside}
use mpfpv.Web.{
  Method, http_get, http_post, Request, status_ok, status_bad_request, status_method_not_allowed,
  status_internal_server_error,
}
use mpfpv.Gui.{
  System, Notice, SaveFailure, Connected, save_config, connect, disconnect, run_fails, run_ends,
}

-- /api/available-interfaces, /api/config, /api/connect, /api/disconnect and /api/connection-status.
pub data GuiRoute : Type 0 where
  available_path config_path connect_path disconnect_path status_path : GuiRoute

-- The state after the request, the callbacks that it called, and the status.
abbrev pub Served : Type 0
Served = (System × List Notice) × ℕ

abbrev pub query : System → Method → Served
query s http_get = ((s, []), status_ok)
query s _ = ((s, []), status_method_not_allowed)

abbrev pub saved_status : System × Option SaveFailure → Served
saved_status (s, none) = ((s, []), status_ok)
saved_status (s, some e) = ((s, []), status_internal_server_error)

abbrev pub serve_save : Outside → System → Option Config → Served
serve_save w s none = ((s, []), status_bad_request)
serve_save w s (some cfg) = saved_status (save_config w cfg s)

-- `decode` reads a configuration from the JSON of the body.
abbrev pub serve_config : Outside → (List ℕ → Option Config) → System → Request → Served
serve_config w decode s r = elim r.method [
  | http_get ↦ ((s, []), status_ok)
  | http_post ↦ serve_save w s (decode r.body)
  | _ ↦ ((s, []), status_method_not_allowed)
]

abbrev pub connect_status : Connected → Served
connect_status (result, none) = (result, status_ok)
connect_status (result, some e) = (result, status_internal_server_error)

abbrev pub serve_connect : Outside → System → Method → Served
serve_connect w s http_post = connect_status (connect w s)
serve_connect w s _ = ((s, []), status_method_not_allowed)

abbrev pub serve_disconnect : System → Method → Served
serve_disconnect s http_post = ((disconnect s, []), status_ok)
serve_disconnect s _ = ((s, []), status_method_not_allowed)

unfoldable pub serve_gui : Outside → (List ℕ → Option Config) → System → GuiRoute → Request → Served
serve_gui w decode s available_path r = query s r.method
serve_gui w decode s config_path r = serve_config w decode s r
serve_gui w decode s connect_path r = serve_connect w s r.method
serve_gui w decode s disconnect_path r = serve_disconnect s r.method
serve_gui w decode s status_path r = query s r.method

-- A request, and the two steps of a client's goroutine.
pub data Event : Type 0 where
  request : GuiRoute → Request → Event
  fails : ℕ → List ℕ → Event
  ends : ℕ → Event

unfoldable pub step : Outside → (List ℕ → Option Config) → System → Event → System
step w decode s (request route r) = (serve_gui w decode s route r).0.0
step w decode s (fails n error) = run_fails n error s
step w decode s (ends n) = (run_ends n s).0

-- The steps in their order, each with what the outside answers.
unfoldable pub run : (List ℕ → Option Config) → System → List (Outside × Event) → System
run decode s [] = s
run decode s ((w, event) ∷ rest) = run decode (step w decode s event) rest

-- An interface as the system reports it: its name, its flags, and its addresses, if there is no error.
pub record Nic : Type 0 where
  pub name : List ℕ
  pub loopback : Bool
  pub up : Bool
  pub addrs : Option (List (List ℕ))

-- Link-local, the range of carrier-grade NAT, and the VPN's own.
abbrev is_skipped : List ℕ → Bool
is_skipped ip4 =
    (get_or ip4 0 0 == 169 && get_or ip4 1 0 == 254)
    || (get_or ip4 0 0 == 100 && (leb 64 (get_or ip4 1 0) && leb (get_or ip4 1 0) 127))
    || (get_or ip4 0 0 == 10 && get_or ip4 1 0 == 99)

unfoldable pub usable_ipv4s : List (List ℕ) → List (List ℕ)
unfolding to4
usable_ipv4s [] = []
usable_ipv4s (ip ∷ rest) =
    let later = usable_ipv4s rest in
    elim (to4 ip) [ none ↦ later | some ip4 ↦ if is_skipped ip4 then later else ip4 ∷ later ]

abbrev listed : List ℕ → List (List ℕ) → List (List ℕ × List (List ℕ))
listed name [] = []
listed name (ip ∷ ips) = (name, ip ∷ ips) ∷ []

abbrev list_nic : Nic → List (List ℕ × List (List ℕ))
list_nic nic =
    if nic.loopback || not nic.up
    then []
    else elim nic.addrs [ none ↦ [] | some addrs ↦ listed nic.name (usable_ipv4s addrs) ]

unfoldable pub list_nics : List Nic → List (List ℕ × List (List ℕ))
list_nics [] = []
list_nics (nic ∷ rest) = list_nic nic ++ list_nics rest

-- `none` is an error of net.Interfaces.
unfoldable pub list_physical_interfaces : Option (List Nic) → List (List ℕ × List (List ℕ))
list_physical_interfaces none = []
list_physical_interfaces (some nics) = list_nics nics
