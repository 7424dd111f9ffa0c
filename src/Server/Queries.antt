-- ===== src/Server/Queries.antt =====
-- The queries of internal/server/webapi.go: GetClients, GetClient, GetDevices and GetRoutes. Addresses
-- and times stand for their texts.
pub mod Devices
use mpfpv.Prelude.{
  ℕ, List, [], ◌∷◌, Bool, true, false, Option, none, some, ◌==◌, if◌then◌else◌, length, nat_eq,
}
use mpfpv.Prelude.Map.{Map, lookup}
use mpfpv.Prelude.Sorting.{sort_by}
use mpfpv.Config.{is_empty, redundant_name, failover_name}
use mpfpv.Protocol.Packet.{send_mode_redundant, send_mode_failover}
use mpfpv.Server.State.{Addr, AddrInfo, ClientSession, Server}
use mpfpv.Server.Stats.{is_online}
use mpfpv.Server.Pool.Saving.{name_of}

-- "unknown"
abbrev pub unknown_name : List ℕ
unknown_name = 117 ∷ 110 ∷ 107 ∷ 110 ∷ 111 ∷ 119 ∷ 110 ∷ []

unfoldable pub send_mode_string : ℕ → List ℕ
send_mode_string mode =
    if mode == send_mode_redundant
    then redundant_name
    else if mode == send_mode_failover
    then failover_name
    else unknown_name

pub record ClientInfo : Type 0 where
  pub client_id : ℕ
  pub virtual_ip : ℕ
  pub device_name : List ℕ
  pub send_mode : List ℕ
  pub online : Bool
  pub last_seen : ℕ
  pub addr_count : ℕ

abbrev client_info : ℕ → ℕ → ClientSession → ClientInfo
client_info now timeout session = record {
  client_id = session.client_id;
  virtual_ip = session.virtual_ip;
  device_name = session.device_name;
  send_mode = send_mode_string session.send_mode;
  online = is_online now timeout session;
  last_seen = session.last_seen;
  addr_count = length session.addrs;
}

abbrev client_infos : ℕ → ℕ → Map ℕ ClientSession → List ClientInfo
client_infos now timeout [] = []
client_infos now timeout ((id, session) ∷ rest) =
    client_info now timeout session ∷ client_infos now timeout rest

-- sort.Slice leaves the order of equal IDs open; the sessions' IDs are their keys.
unfoldable pub get_clients : ℕ → Server → List ClientInfo
get_clients now s =
    sort_by (λ (c : ClientInfo). c.client_id) (client_infos now s.client_timeout s.sessions)

pub record AddrDetail : Type 0 where
  pub addr : Addr
  pub last_seen : ℕ

abbrev addr_details : Map Addr AddrInfo → List AddrDetail
addr_details [] = []
addr_details ((key, info) ∷ rest) =
    record { addr = info.addr; last_seen = info.last_seen } ∷ addr_details rest

pub record ClientDetailInfo : Type 0 where
  pub info : ClientInfo
  pub addrs : List AddrDetail

unfoldable pub get_client : ℕ → Server → ℕ → Option ClientDetailInfo
get_client now s id = elim (lookup id s.sessions) [
  | none ↦ none
  | some session ↦ some (record {
    info = client_info now s.client_timeout session;
    addrs = addr_details session.addrs;
  })
]

pub record DevicePathRtt : Type 0 where
  pub name : List ℕ
  pub rtt_ms : ℕ
  pub tx_bytes : ℕ
  pub rx_bytes : ℕ

abbrev path_rtt : AddrInfo → DevicePathRtt
path_rtt info = record {
  name = info.nic_name;
  rtt_ms = info.nic_rtt_ms;
  tx_bytes = info.nic_tx_bytes;
  rx_bytes = info.nic_rx_bytes;
}

-- The addresses that a heartbeat with a path has named.
abbrev pub path_rtts : Map Addr AddrInfo → List DevicePathRtt
path_rtts [] = []
path_rtts ((key, info) ∷ rest) =
    let later = path_rtts rest in if is_empty info.nic_name then later else path_rtt info ∷ later

pub record DeviceInfo : Type 0 where
  pub client_id : ℕ
  pub virtual_ip : ℕ
  pub device_name : List ℕ
  pub online : Bool
  pub send_mode : List ℕ
  pub last_seen : Option ℕ
  pub addr_count : ℕ
  pub path_rtts : List DevicePathRtt
  pub rx_bytes : ℕ
  pub tx_bytes : ℕ

abbrev pub offline_device : ℕ → ℕ → List ℕ → DeviceInfo
offline_device id ip name = record {
  client_id = id;
  virtual_ip = ip;
  device_name = name;
  online = false;
  send_mode = [];
  last_seen = none;
  addr_count = 0;
  path_rtts = [];
  rx_bytes = 0;
  tx_bytes = 0;
}

-- What a live session adds.
abbrev pub with_session : ℕ → ℕ → DeviceInfo → Option ClientSession → DeviceInfo
with_session now timeout d none = d
with_session now timeout d (some session) = record d {
  device_name = if is_empty session.device_name then d.device_name else session.device_name;
  online = is_online now timeout session;
  send_mode = send_mode_string session.send_mode;
  last_seen = some session.last_seen;
  addr_count = length session.addrs;
  path_rtts = path_rtts session.addrs;
  rx_bytes = session.rx_bytes;
  tx_bytes = session.tx_bytes;
}

abbrev pub device_info : ℕ → Server → ℕ → ℕ → DeviceInfo
device_info now s id ip =
    with_session now s.client_timeout (offline_device id ip (name_of id s.ip_pool_names))
      (lookup id s.sessions)

unfoldable pub device_infos : ℕ → Server → Map ℕ ℕ → List DeviceInfo
device_infos now s [] = []
device_infos now s ((id, ip) ∷ rest) = device_info now s id ip ∷ device_infos now s rest

unfoldable pub get_devices : ℕ → Server → List DeviceInfo
get_devices now s = sort_by (λ (d : DeviceInfo). d.client_id) (device_infos now s s.ip_pool)

pub record RouteEntry : Type 0 where
  pub virtual_ip : ℕ
  pub client_id : ℕ

abbrev route_entries : Map ℕ ℕ → List RouteEntry
route_entries [] = []
route_entries ((ip, id) ∷ rest) = record { virtual_ip = ip; client_id = id } ∷ route_entries rest

unfoldable pub get_routes : Server → List RouteEntry
get_routes s = sort_by (λ (r : RouteEntry). r.client_id) (route_entries s.route_table)
