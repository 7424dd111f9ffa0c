-- ===== src/Web/ClientMode.antt =====
-- The client's mode of internal/web/handler.go, with SetSendMode and SetInterfaceEnabled of
-- internal/client/webapi.go.
use mpfpv.Prelude.{
  ℕ, List, [], ◌∷◌, Bool, true, false, ◌||◌, Option, none, some, ◌==◌, if◌then◌else◌, bytes_beq,
  bytes_eq, nat_eq,
}
use mpfpv.Prelude.Map.{lookup}
use mpfpv.Protocol.Packet.{send_mode_redundant, send_mode_failover}
use mpfpv.Config.{redundant_name, failover_name}
use mpfpv.Transport.Paths.{Sender, set_send_mode}
use mpfpv.Client.State.{Client}
use mpfpv.Web.{
  Method, http_get, http_post, Request, status_ok, status_bad_request, status_method_not_allowed,
}

-- The patterns of the client's mode: /api/status, /api/interfaces, /api/interfaces/ and
-- /api/sendmode.
pub data ClientRoute : Type 0 where
  status_path interfaces_path send_mode_path : ClientRoute
  interface_path : List ℕ → ClientRoute

-- strings.SplitN(rest, "/", 2), where there is a slash.
abbrev split_slash : List ℕ → Option (List ℕ × List ℕ)
split_slash [] = none
split_slash (c ∷ rest) =
    if c == 47
    then some ([], rest)
    else elim (split_slash rest) [ none ↦ none | some (before, after) ↦ some (c ∷ before, after) ]

-- "enable" and "disable"
abbrev enable_name : List ℕ
enable_name = 101 ∷ 110 ∷ 97 ∷ 98 ∷ 108 ∷ 101 ∷ []

abbrev disable_name : List ℕ
disable_name = 100 ∷ 105 ∷ 115 ∷ 97 ∷ 98 ∷ 108 ∷ 101 ∷ []

abbrev set_sender_mode : ℕ → ℕ → Option Sender → Option Sender
set_sender_mode now mode none = none
set_sender_mode now mode (some m) = some (set_send_mode now m mode)

-- SetSendMode of internal/client/webapi.go: `none` is its error.
unfoldable pub set_client_mode : ℕ → Client → List ℕ → Option Client
set_client_mode now c name =
    let change : ℕ → Client =
      λ mode. record c { send_mode = mode; multipath = set_sender_mode now mode c.multipath } in
    if bytes_beq name redundant_name
    then some (change send_mode_redundant)
    else if bytes_beq name failover_name
    then some (change send_mode_failover)
    else none

-- SetInterfaceEnabled of internal/client/webapi.go: it only checks that there is such a path.
abbrev has_interface : Option Sender → List ℕ → Bool
has_interface none name = false
has_interface (some m) name = elim (lookup name m.paths) [ none ↦ false | some p ↦ true ]

unfoldable pub set_interface_enabled : Client → List ℕ → Bool → Bool
set_interface_enabled c name enabled = has_interface c.multipath name

abbrev client_query : Client → Method → Client × ℕ
client_query c http_get = (c, status_ok)
client_query c _ = (c, status_method_not_allowed)

abbrev serve_action : Client → Option (List ℕ × List ℕ) → Client × ℕ
serve_action c none = (c, status_bad_request)
serve_action c (some (name, action)) = (
  c,
  if bytes_beq action enable_name || bytes_beq action disable_name
      then (if set_interface_enabled c name (bytes_beq action enable_name)
          then status_ok
          else status_bad_request)
      else status_bad_request,
)

abbrev served_mode : Client → Option Client → Client × ℕ
served_mode c none = (c, status_bad_request)
served_mode c (some c') = (c', status_ok)

abbrev serve_mode : ℕ → Client → Option (List ℕ) → Client × ℕ
serve_mode now c none = (c, status_bad_request)
serve_mode now c (some name) = served_mode c (set_client_mode now c name)

abbrev post_only : Client → Method → Client × ℕ → Client × ℕ
post_only c http_post served = served
post_only c _ served = (c, status_method_not_allowed)

-- `decode_mode` reads the mode from the JSON of the body.
unfoldable pub serve_client :
    (List ℕ → Option (List ℕ)) → ℕ → Client → ClientRoute → Request → Client × ℕ
serve_client decode_mode now c status_path r = client_query c r.method
serve_client decode_mode now c interfaces_path r = client_query c r.method
serve_client decode_mode now c (interface_path rest) r =
    post_only c r.method (serve_action c (split_slash rest))
serve_client decode_mode now c send_mode_path r =
    post_only c r.method (serve_mode now c (decode_mode r.body))
