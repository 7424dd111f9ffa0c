-- ===== src/Server/Admin.antt =====
-- The operations of internal/server/webapi.go that change the server. What net.ParseIP makes of the
-- text of an address is an argument.
pub mod Uniqueness
use mpfpv.Prelude.{
  ℕ, ◌-◌, ◌/◌, ◌^◌, List, [], ◌∷◌, ◌++◌, Bool, true, false, not, ◌&&◌, ◌||◌, Option, none, some,
  ◌==◌, if◌then◌else◌, nat_eq,
}
use mpfpv.Prelude.Map.{Map, lookup, insert, delete}
use mpfpv.Prelude.Outcome.{Result, ok, err}
use mpfpv.Protocol.Dedup.{reset}
use mpfpv.Protocol.Packet.{ack_status_ok}
use mpfpv.Server.State.{Addr, AddrInfo, ClientSession, Server, Subnet, Effect, save_pool, Step}
use mpfpv.Server.Send.{send_heartbeat_ack}

pub data AdminError : Type 0 where
  invalid_address not_in_subnet server_address not_found already_assigned : AdminError

abbrev saved : Server → Effect
saved s = save_pool s.ip_pool s.ip_pool_names

unfoldable pub delete_client : Server → ℕ → Result AdminError Step
delete_client s id = elim (lookup id s.sessions) [
  | none ↦ err not_found
  | some session ↦
      let s' : Server = record s {
        route_table = delete session.virtual_ip s.route_table;
        sessions = delete id s.sessions;
        ip_pool = delete id s.ip_pool;
        ip_pool_names = delete id s.ip_pool_names;
      } in
      ok (s', saved s' ∷ [])
]

-- subnet.Contains(ip)
abbrev pub contains : Option Subnet → ℕ → Bool
contains none ip = true
contains (some subnet) ip = ip / 2 ^ (32 - subnet.ones) == subnet.base / 2 ^ (32 - subnet.ones)

-- Whether a client other than `client_id` has the address.
unfoldable pub assigned_to_other : ℕ → ℕ → Map ℕ ℕ → Bool
assigned_to_other client_id ip [] = false
assigned_to_other client_id ip ((cid, v) ∷ rest) =
    not (cid == client_id) && v == ip || assigned_to_other client_id ip rest

-- An acknowledgement with the new address to every address of the client.
unfoldable pub notify_all : Server → ℕ → Map Addr AddrInfo → Step
notify_all s ip [] = (s, [])
notify_all s ip ((key, ai) ∷ rest) =
    let (s', sent) = send_heartbeat_ack s ai.addr ip s.prefix_len ack_status_ok in
    let (s'', more) = notify_all s' ip rest in (s'', sent ++ more)

abbrev move_session : Server → ℕ → ℕ → Option ClientSession → Step
move_session s client_id ip none = (s, [])
move_session s client_id ip (some session) =
    notify_all
      (record s {
        sessions =
            insert client_id (record session { virtual_ip = ip; prefix_len = s.prefix_len })
              s.sessions;
      })
      ip session.addrs

-- The pool and the route table take the new address, then the session.
unfoldable pub move_device : Server → ℕ → ℕ → ℕ → Step
move_device s client_id old_ip ip =
    let s1 : Server = record s { ip_pool = insert client_id ip s.ip_pool } in
    let s2 : Server = record s1 {
      route_table = insert ip client_id (delete old_ip s.route_table);
    } in
    let (s3, sent) = move_session s2 client_id ip (lookup client_id s2.sessions) in
    (s3, saved s1 ∷ sent)

unfoldable pub assign_device : Server → ℕ → ℕ → Result AdminError Step
assign_device s client_id ip = elim (lookup client_id s.ip_pool) [
  | none ↦ err not_found
  | some old_ip ↦
      if assigned_to_other client_id ip s.ip_pool
      then err already_assigned
      else ok (move_device s client_id old_ip ip)
]

unfoldable pub update_device_ip : Server → ℕ → Option ℕ → Result AdminError Step
update_device_ip s client_id none = err invalid_address
update_device_ip s client_id (some ip) =
    if not (contains s.subnet ip)
    then err not_in_subnet
    else if ip == s.server_virtual_ip
    then err server_address
    else assign_device s client_id ip

abbrev pub drop_session : Server → ℕ → Option ClientSession → Server
drop_session s client_id none = s
drop_session s client_id (some session) = record s {
  sessions = delete client_id s.sessions;
  dedup = reset s.dedup client_id;
}

unfoldable pub delete_device : Server → ℕ → Result AdminError Step
delete_device s client_id = elim (lookup client_id s.ip_pool) [
  | none ↦ err not_found
  | some old_ip ↦
      let s1 : Server = record s {
        ip_pool = delete client_id s.ip_pool;
        ip_pool_names = delete client_id s.ip_pool_names;
      } in
      let s2 : Server = record s1 { route_table = delete old_ip s.route_table } in
      ok (drop_session s2 client_id (lookup client_id s2.sessions), saved s1 ∷ [])
]
