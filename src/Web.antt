-- ===== src/Web.antt =====
-- internal/web/handler.go: the handlers of the JSON interface, with UpdateServerConfig of
-- internal/server/webapi.go. A route is the pattern that net/http has matched, with what of the path is
-- behind it. The bodies of the answers are left out: an answer is its status. Parameters stand for
-- strconv.ParseUint with 16 bits, net.ParseIP, and the JSON decoders.
pub mod Changes
pub mod ClientMode
use mpfpv.Prelude.{
  ℕ, List, [], ◌∷◌, Bool, true, false, not, ◌&&◌, ◌||◌, Option, none, some, ◌==◌, if◌then◌else◌,
  bytes_beq, bytes_eq, nat_eq,
}
use mpfpv.Prelude.Map.{Map, lookup}
use mpfpv.Prelude.Outcome.{Result, ok, err}
use mpfpv.Protocol.Packet.{send_mode_redundant, send_mode_failover, compute_team_key_hash}
use mpfpv.Config.{is_empty, redundant_name, failover_name}
use mpfpv.Server.State.{Server, ClientSession, Effect, Step}
use mpfpv.Server.Admin.{AdminError, delete_client, update_device_ip, delete_device}
use mpfpv.Transport.Paths.{Sender, set_send_mode}
use mpfpv.Client.State.{Client}

pub data Method : Type 0 where
  http_get http_post http_put http_delete http_other : Method

pub record Request : Type 0 where
  pub method : Method
  pub body : List ℕ

abbrev pub status_ok : ℕ
status_ok = 200

abbrev pub status_bad_request : ℕ
status_bad_request = 400

abbrev status_not_found : ℕ
status_not_found = 404

abbrev pub status_method_not_allowed : ℕ
status_method_not_allowed = 405

abbrev pub status_internal_server_error : ℕ
status_internal_server_error = 500

-- strings.TrimSuffix(s, "/")
abbrev pub trim_slash : List ℕ → List ℕ
trim_slash [] = []
trim_slash (c ∷ []) = if c == 47 then [] else c ∷ []
trim_slash (c ∷ d ∷ rest) = c ∷ trim_slash (d ∷ rest)

-- The patterns of the server's mode: /api/clients, /api/clients/, /api/routes, /api/server-config,
-- /api/stats, /api/devices and /api/devices/.
pub data ServerRoute : Type 0 where
  clients_path routes_path server_config_path stats_path devices_path : ServerRoute
  client_path device_path : List ℕ → ServerRoute

-- A running server with the fields of its configuration that the interface changes: cfg.TeamKey,
-- cfg.Server.ListenAddr and cfgPath.
pub record Hosted : Type 0 where
  pub server : Server
  pub team_key : List ℕ
  pub listen_addr : List ℕ
  pub cfg_path : List ℕ

-- The state after the request, with what was sent and saved, and the status.
abbrev pub Served : Type 0
Served = (Hosted × List Effect) × ℕ

abbrev set_team_key : (List ℕ → List ℕ) → List ℕ → Hosted → Hosted
set_team_key sha256 key h =
    if not (is_empty key) && not (bytes_beq key h.team_key)
    then record h {
      team_key = key;
      server = record h.server { team_key_hash = compute_team_key_hash sha256 key };
    }
    else h

abbrev set_listen_addr : List ℕ → Hosted → Hosted
set_listen_addr addr h = if is_empty addr then h else record h { listen_addr = addr }

-- UpdateServerConfig, and whether it returns no error; `can_save` is whether SaveConfig succeeds.
unfoldable pub update_server_config :
    (List ℕ → List ℕ) → Bool → List ℕ → List ℕ → Hosted → Hosted × Bool
update_server_config sha256 can_save key addr h =
    let h' = set_listen_addr addr (set_team_key sha256 key h) in
    (h', if is_empty h'.cfg_path then true else can_save)

abbrev pub query : Hosted → Method → Served
query h http_get = ((h, []), status_ok)
query h _ = ((h, []), status_method_not_allowed)

-- An error is answered with the status that the handler has for it.
abbrev pub outcome : Hosted → ℕ → Result AdminError Step → Served
outcome h status (err e) = ((h, []), status)
outcome h status (ok (s, effects)) = ((record h { server = s }, effects), status_ok)

abbrev pub found : Hosted → Option ClientSession → Served
found h none = ((h, []), status_not_found)
found h (some session) = ((h, []), status_ok)

abbrev pub serve_client_id : Hosted → Method → ℕ → Served
serve_client_id h http_get id = found h (lookup id h.server.sessions)
serve_client_id h http_delete id = outcome h status_not_found (delete_client h.server id)
serve_client_id h _ id = ((h, []), status_method_not_allowed)

-- The ID is parsed before the method is looked at.
abbrev pub with_id : Hosted → Option ℕ → (ℕ → Served) → Served
with_id h none f = ((h, []), status_bad_request)
with_id h (some id) f = f id

module _ (parse_ip : List ℕ → Option ℕ) where
  abbrev pub serve_update : Hosted → ℕ → Option (List ℕ) → Served
  serve_update h id none = ((h, []), status_bad_request)
  serve_update h id (some text) =
      outcome h status_bad_request (update_device_ip h.server id (parse_ip text))

  abbrev pub serve_device_id : Hosted → Option (List ℕ) → Method → ℕ → Served
  serve_device_id h update http_put id = serve_update h id update
  serve_device_id h update http_delete id = outcome h status_not_found (delete_device h.server id)
  serve_device_id h update _ id = ((h, []), status_method_not_allowed)

abbrev pub saved_config : Hosted × Bool → Served
saved_config (h, true) = ((h, []), status_ok)
saved_config (h, false) = ((h, []), status_internal_server_error)

module _ (sha256 : List ℕ → List ℕ) (can_save : Bool) where
  -- The two fields of the request, or none for a body that is not its JSON.
  abbrev pub serve_config : Hosted → Option (List ℕ × List ℕ) → Method → Served
  serve_config h update http_get = ((h, []), status_ok)
  serve_config h none http_post = ((h, []), status_bad_request)
  serve_config h (some (key, addr)) http_post =
      saved_config (update_server_config sha256 can_save key addr h)
  serve_config h update _ = ((h, []), status_method_not_allowed)

module _ (sha256 : List ℕ → List ℕ) (can_save : Bool) (parse_uint parse_ip : List ℕ → Option ℕ)
    (decode_device : List ℕ → Option (List ℕ))
    (decode_config : List ℕ → Option (List ℕ × List ℕ)) where
  unfoldable pub serve_server : Hosted → ServerRoute → Request → Served
  serve_server h clients_path r = query h r.method
  serve_server h routes_path r = query h r.method
  serve_server h stats_path r = query h r.method
  serve_server h devices_path r = query h r.method
  serve_server h server_config_path r =
      serve_config sha256 can_save h (decode_config r.body) r.method
  serve_server h (client_path rest) r =
      with_id h (parse_uint (trim_slash rest)) (serve_client_id h r.method)
  serve_server h (device_path rest) r =
      with_id h (parse_uint (trim_slash rest))
        (serve_device_id parse_ip h (decode_device r.body) r.method)
