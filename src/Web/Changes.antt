-- ===== src/Web/Changes.antt =====
-- Which requests to the server's mode of internal/web/handler.go change the server.
use mpfpv.Prelude.{
  ℕ, ◌≡◌, ◌≢◌, ◌⊎◌, inl, inr, refl, List, [], Bool, true, false, Option, none, some, nat_eq,
}
use mpfpv.Prelude.Map.{lookup}
use mpfpv.Prelude.Outcome.{Result, ok, err}
use mpfpv.Server.State.{ClientSession, Step}
use mpfpv.Server.Admin.{AdminError, delete_client, delete_device, update_device_ip}
use mpfpv.Web.{
  Method, http_get, http_post, http_put, http_delete, http_other, Request, ServerRoute,
  clients_path, routes_path, stats_path, devices_path, server_config_path, client_path, device_path,
  Hosted, Served, query, outcome, found, serve_client_id, with_id, serve_update, serve_device_id,
  saved_config, serve_config, update_server_config, serve_server, trim_slash,
}

-- The request only asks, or it is answered with an error of the one who asks.
abbrev pub IsRefusal : Method → ℕ → Type 0
IsRefusal method status = (method ≡ http_get) ⊎ ((status ≢ 200) × (status ≢ 500))

abbrev Unchanged : Hosted → Served → Type 0
Unchanged h (after, status) = after ≡ (h, [])

query-Unchanged : (h : Hosted) (method : Method) → Unchanged h (query h method)
query-Unchanged h http_get = refl
query-Unchanged h http_post = refl
query-Unchanged h http_put = refl
query-Unchanged h http_delete = refl
query-Unchanged h http_other = refl

outcome-Unchanged :
    (h : Hosted) (status : ℕ) (r : Result AdminError Step)
    → (outcome h status r).1 ≢ 200
    → Unchanged h (outcome h status r)
outcome-Unchanged h status (err e) failed = refl
outcome-Unchanged h status (ok step) failed = absurd (failed refl)

found-Unchanged : (h : Hosted) (o : Option ClientSession) → Unchanged h (found h o)
found-Unchanged h none = refl
found-Unchanged h (some session) = refl

serve_client_id-Unchanged :
    (h : Hosted) (method : Method) (id : ℕ)
    → IsRefusal method (serve_client_id h method id).1
    → Unchanged h (serve_client_id h method id)
serve_client_id-Unchanged h http_get id refusal = found-Unchanged h (lookup id h.server.sessions)
serve_client_id-Unchanged h http_delete id (inl get) = absurd cc
serve_client_id-Unchanged h http_delete id (inr (failed, _)) =
    outcome-Unchanged h _ (delete_client h.server id) failed
serve_client_id-Unchanged h http_post id refusal = refl
serve_client_id-Unchanged h http_put id refusal = refl
serve_client_id-Unchanged h http_other id refusal = refl

module _ (parse_ip : List ℕ → Option ℕ) where
  serve_update-Unchanged :
      (h : Hosted) (id : ℕ) (update : Option (List ℕ))
      → (serve_update parse_ip h id update).1 ≢ 200
      → Unchanged h (serve_update parse_ip h id update)
  serve_update-Unchanged h id none failed = refl
  serve_update-Unchanged h id (some text) failed =
      outcome-Unchanged h _ (update_device_ip h.server id (parse_ip text)) failed

  serve_device_id-Unchanged :
      (h : Hosted) (update : Option (List ℕ)) (method : Method) (id : ℕ)
      → IsRefusal method (serve_device_id parse_ip h update method id).1
      → Unchanged h (serve_device_id parse_ip h update method id)
  serve_device_id-Unchanged h update http_put id (inl get) = absurd cc
  serve_device_id-Unchanged h update http_put id (inr (failed, _)) =
      serve_update-Unchanged h id update failed
  serve_device_id-Unchanged h update http_delete id (inl get) = absurd cc
  serve_device_id-Unchanged h update http_delete id (inr (failed, _)) =
      outcome-Unchanged h _ (delete_device h.server id) failed
  serve_device_id-Unchanged h update http_get id refusal = refl
  serve_device_id-Unchanged h update http_post id refusal = refl
  serve_device_id-Unchanged h update http_other id refusal = refl

saved_config-status :
    (saved : Hosted × Bool) → ((saved_config saved).1 ≡ 200) ⊎ ((saved_config saved).1 ≡ 500)
saved_config-status (h, true) = inl refl
saved_config-status (h, false) = inr refl

module _ (sha256 : List ℕ → List ℕ) (can_save : Bool) where
  serve_config-Unchanged :
      (h : Hosted) (update : Option (List ℕ × List ℕ)) (method : Method)
      → IsRefusal method (serve_config sha256 can_save h update method).1
      → Unchanged h (serve_config sha256 can_save h update method)
  serve_config-Unchanged h update http_get refusal = refl
  serve_config-Unchanged h none http_post refusal = refl
  serve_config-Unchanged h (some (key, addr)) http_post (inl get) = absurd cc
  serve_config-Unchanged h (some (key, addr)) http_post (inr (not_ok, not_failed)) =
      elim (saved_config-status (update_server_config sha256 can_save key addr h)) [
        | inl done ↦ absurd (not_ok done)
        | inr failed ↦ absurd (not_failed failed)
      ]
  serve_config-Unchanged h update http_put refusal = refl
  serve_config-Unchanged h update http_delete refusal = refl
  serve_config-Unchanged h update http_other refusal = refl

with_id-Unchanged :
    (h : Hosted) (method : Method) (o : Option ℕ) (f : ℕ → Served)
    → ((id : ℕ) → IsRefusal method (f id).1 → Unchanged h (f id))
    → IsRefusal method (with_id h o f).1
    → Unchanged h (with_id h o f)
with_id-Unchanged h method none f each refusal = refl
with_id-Unchanged h method (some id) f each refusal = each id refusal

module _ (sha256 : List ℕ → List ℕ) (can_save : Bool) (parse_uint parse_ip : List ℕ → Option ℕ)
    (decode_device : List ℕ → Option (List ℕ))
    (decode_config : List ℕ → Option (List ℕ × List ℕ)) where
  -- A request to the server's interface changes nothing and sends nothing if its method is GET, or
  -- if it is answered with a status other than 200 and 500.
  pub serve_server_unchanged :
      (h : Hosted) (route : ServerRoute) (r : Request)
      → IsRefusal r.method
          (serve_server sha256 can_save parse_uint parse_ip decode_device decode_config h route r).1
      → (serve_server sha256 can_save parse_uint parse_ip decode_device decode_config h route r).0
        ≡ (h, [])
  unfolding serve_server
  serve_server_unchanged h clients_path r refusal = query-Unchanged h r.method
  serve_server_unchanged h routes_path r refusal = query-Unchanged h r.method
  serve_server_unchanged h stats_path r refusal = query-Unchanged h r.method
  serve_server_unchanged h devices_path r refusal = query-Unchanged h r.method
  serve_server_unchanged h server_config_path r refusal =
      serve_config-Unchanged sha256 can_save h (decode_config r.body) r.method refusal
  serve_server_unchanged h (client_path rest) r refusal =
      with_id-Unchanged h r.method (parse_uint (trim_slash rest)) _
        (serve_client_id-Unchanged h r.method) refusal
  serve_server_unchanged h (device_path rest) r refusal =
      with_id-Unchanged h r.method (parse_uint (trim_slash rest)) _
        (serve_device_id-Unchanged parse_ip h (decode_device r.body) r.method) refusal
