-- ===== src/Tests/Web.antt =====
-- Requests to internal/web/handler.go: the deletion of a client that is not there, and a team key that
-- cannot be saved.
use mpfpv.Prelude.{ℕ, ◌≡◌, refl, arith, List, [], ◌∷◌, false, Option, none, some, inr, bytes_beq}
use mpfpv.Prelude.Map.{lookup}
use mpfpv.Protocol.Packet.{compute_team_key_hash}
use mpfpv.Server.Admin.{delete_client}
use mpfpv.Web.{
  http_post, http_delete, Request, server_config_path, client_path, Hosted, serve_server,
  update_server_config,
}
use mpfpv.Web.Changes.{IsRefusal, serve_server_unchanged}
use mpfpv.Tests.Config.{sha256}
use mpfpv.Tests.Relay.{relay}

abbrev hosted : Hosted
hosted = record { server = relay; team_key = 107 ∷ []; listen_addr = []; cfg_path = 47 ∷ [] }

abbrev digit_id : List ℕ → Option ℕ
digit_id [] = none
digit_id (c ∷ rest) = some c

abbrev no_ip : List ℕ → Option ℕ
no_ip text = none

abbrev no_json : List ℕ → Option (List ℕ)
no_json body = none

abbrev new_key : List ℕ → Option (List ℕ × List ℕ)
new_key body = some (120 ∷ [], [])

abbrev removal : Request
removal = record { method = http_delete; body = [] }

refused :
    IsRefusal removal.method
      (serve_server sha256 false digit_id no_ip no_json new_key hosted
        (client_path (7 ∷ []))
        removal).1
unfolding serve_server delete_client lookup
refused = inr (omega arith, omega arith)

serve_server_unchanged_example :
    (serve_server sha256 false digit_id no_ip no_json new_key hosted
      (client_path (7 ∷ []))
      removal).0
    ≡ (hosted, [])
serve_server_unchanged_example =
    serve_server_unchanged sha256 false digit_id no_ip no_json new_key hosted (client_path (7 ∷ []))
      removal refused

-- The request fails with 500, and the server has the hash of the new key.
unsaved :
    (serve_server sha256 false digit_id no_ip no_json new_key
      (record hosted { server = record relay { team_key_hash = [] } })
      server_config_path
      (record { method = http_post; body = [] }))
    ≡ ((record hosted { team_key = 120 ∷ []; server = relay }, []), 500)
unfolding serve_server update_server_config compute_team_key_hash bytes_beq
unsaved = refl
