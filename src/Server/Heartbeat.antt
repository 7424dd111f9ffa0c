-- ===== src/Server/Heartbeat.antt =====
-- handleHeartbeat of internal/server/server.go, from the registration of a client to the answer.
pub mod Nics
pub mod Register
pub mod Replies
use mpfpv.Prelude.{
  ℕ, List, [], ◌∷◌, ◌++◌, Bool, true, false, not, ◌&&◌, Option, none, some, ◌==◌, if◌then◌else◌,
  nat_eq, bytes_beq,
}
use mpfpv.Prelude.Map.{Map, lookup, insert}
use mpfpv.Prelude.Outcome.{Result, ok, err, Run, returns, ◌>>=◌}
use mpfpv.Protocol.Packet.{
  Header, HeartbeatPayload, PathRtt, DecodeError, decode_heartbeat, uint32_at, ack_status_ok,
  ack_status_team_key_mismatch, ack_status_client_id_conflict,
}
use mpfpv.Server.State.{
  Addr, addr_eq, addr_beq, AddrInfo, ClientSession, Server, Effect, save_pool, Step,
}
use mpfpv.Server.Pool.{is_named, allocate_ip}
use mpfpv.Server.Send.{send_heartbeat_ack}

-- A client that has no session: the address for it, from the pool if it asks for one with 0.0.0.0.
unfoldable pub assign_ip : Server → ℕ → ℕ → HeartbeatPayload → (Server × List Effect) × (ℕ × ℕ)
assign_ip s client_id vip hb =
    if vip == 0
    then (let (step, allocated) = allocate_ip s client_id hb.device_name in
        elim allocated [ none ↦ (step, (vip, hb.prefix_len)) | some pair ↦ (step, pair) ])
    else ((s, []), (vip, hb.prefix_len))

abbrev new_session : ℕ → ℕ → ℕ → ℕ → HeartbeatPayload → ClientSession
new_session now client_id ip prefix_len hb = record {
  client_id = client_id;
  virtual_ip = ip;
  prefix_len = prefix_len;
  send_mode = hb.send_mode;
  reply_port = hb.reply_port;
  device_name = hb.device_name;
  addrs = [];
  last_seen = now;
  last_data_addr = none;
  rx_bytes = 0;
  tx_bytes = 0;
}

abbrev remember_name : Server → ℕ → List ℕ → Server
remember_name s client_id name =
    if is_named name then record s { ip_pool_names = insert client_id name s.ip_pool_names } else s

-- The address of a client that is not in the pool is put there and saved.
unfoldable pub persist_ip : Server → ℕ → ℕ → List ℕ → Step
persist_ip s client_id ip name = elim (lookup client_id s.ip_pool) [
  | some old ↦ (s, [])
  | none ↦
      let s' =
        remember_name (record s { ip_pool = insert client_id ip s.ip_pool }) client_id name in
      (s', save_pool s'.ip_pool s'.ip_pool_names ∷ [])
]

-- s.routeTable[key] = clientID, for an address that is not 0.0.0.0
unfoldable pub add_route : Server → ℕ → ℕ → List ℕ → Step
add_route s client_id ip name =
    if ip == 0
    then (s, [])
    else persist_ip (record s { route_table = insert ip client_id s.route_table }) client_id ip name

unfoldable pub register :
    ℕ → Server → ℕ → ℕ → HeartbeatPayload → (Server × List Effect) × ClientSession
register now s client_id vip hb =
    let ((s1, saved), (ip, prefix_len)) = assign_ip s client_id vip hb in
    let session = new_session now client_id ip prefix_len hb in
    let s2 : Server = record s1 { sessions = insert client_id session s1.sessions } in
    let (s3, more) = add_route s2 client_id ip hb.device_name in ((s3, saved ++ more), session)

abbrev pub refresh : ℕ → HeartbeatPayload → ClientSession → ClientSession
refresh now hb session = record session {
  send_mode = hb.send_mode;
  reply_port = hb.reply_port;
  last_seen = now;
  device_name = if is_named hb.device_name then hb.device_name else session.device_name;
}

-- Addresses other than `from` that carry the same NIC name are removed.
unfoldable pub drop_stale : Addr → List ℕ → Map Addr AddrInfo → Map Addr AddrInfo
drop_stale from name [] = []
drop_stale from name ((key, ai) ∷ rest) =
    let kept = drop_stale from name rest in
    if not (addr_beq key from) && bytes_beq ai.nic_name name then kept else (key, ai) ∷ kept

abbrev new_addr : ℕ → Addr → AddrInfo
new_addr now from = record {
  addr = from;
  last_seen = now;
  rx_bytes = 0;
  tx_bytes = 0;
  nic_name = [];
  nic_rtt_ms = 0;
  nic_tx_bytes = 0;
  nic_rx_bytes = 0;
}

abbrev pub known_addr : ℕ → Addr → Map Addr AddrInfo → AddrInfo
known_addr now from addrs = elim (lookup from addrs) [
  | none ↦ new_addr now from
  | some ai ↦ record ai { last_seen = now }
]

-- The source address, with the data of its NIC if the heartbeat carries any.
unfoldable pub touch_addr : ℕ → Addr → List PathRtt → Map Addr AddrInfo → Map Addr AddrInfo
touch_addr now from [] addrs = insert from (known_addr now from addrs) addrs
touch_addr now from (p ∷ more) addrs =
    let ai : AddrInfo = record (known_addr now from addrs) {
      nic_name = p.name;
      nic_rtt_ms = p.rtt_ms;
      nic_tx_bytes = p.tx_bytes;
      nic_rx_bytes = p.rx_bytes;
    } in
    let added = insert from ai addrs in
    if is_named p.name then drop_stale from p.name added else added

-- The address is recorded in the session, and the answer carries the session's address.
unfoldable pub answer : ℕ → Server → ℕ → HeartbeatPayload → Addr → ClientSession → Step
answer now s client_id hb from session =
    let session' : ClientSession = record session {
      addrs = touch_addr now from hb.path_rtts session.addrs;
    } in
    send_heartbeat_ack (record s { sessions = insert client_id session' s.sessions }) from
      session.virtual_ip session.prefix_len ack_status_ok

unfoldable pub accept_new : ℕ → Server → ℕ → ℕ → HeartbeatPayload → Addr → Step
accept_new now s client_id vip hb from =
    let ((s', saved), session) = register now s client_id vip hb in
    let (s'', sent) = answer now s' client_id hb from session in (s'', saved ++ sent)

-- A client with a session must keep its address, or ask for one.
unfoldable pub accept_known : ℕ → Server → ℕ → ℕ → HeartbeatPayload → Addr → ClientSession → Step
accept_known now s client_id vip hb from session =
    if not (vip == 0) && not (session.virtual_ip == vip)
    then send_heartbeat_ack s from session.virtual_ip session.prefix_len
        ack_status_client_id_conflict
    else answer now s client_id hb from (refresh now hb session)

unfoldable pub accept : ℕ → Server → ℕ → HeartbeatPayload → Addr → Step
accept now s client_id hb from =
    let vip = uint32_at hb.virtual_ip 0 in
    elim (lookup client_id s.sessions) [
      | none ↦ accept_new now s client_id vip hb from
      | some session ↦ accept_known now s client_id vip hb from session
    ]

unfoldable pub check_heartbeat : ℕ → Server → Header → HeartbeatPayload → Addr → Step
check_heartbeat now s hdr hb from =
    if not (bytes_beq hb.team_key_hash s.team_key_hash)
    then send_heartbeat_ack s from 0 0 ack_status_team_key_mismatch
    else if hdr.client_id == 0
    then (s, [])
    else accept now s hdr.client_id hb from

abbrev checked : ℕ → Server → Header → Addr → Result DecodeError HeartbeatPayload → Step
checked now s hdr from (err e) = (s, [])
checked now s hdr from (ok hb) = check_heartbeat now s hdr hb from

unfoldable pub handle_heartbeat : ℕ → Server → Header → List ℕ → Addr → Run Step
handle_heartbeat now s hdr payload from = do
  decoded ← decode_heartbeat payload
  returns (checked now s hdr from decoded)
