-- ===== src/Server/Data.antt =====
-- handleData and handlePacket of internal/server/server.go, and the packets from the TUN device.
pub mod Counting
pub mod Panics
pub mod Spoofing
pub mod Copies
pub mod Refusals
use mpfpv.Prelude.{
  ℕ, zero, suc, ◌+◌, ◌/◌, ◌^◌, List, [], ◌∷◌, Bool, true, false, not, ◌||◌, Option, none, some,
  ◌==◌, ltb, if◌then◌else◌, nat_eq, length, get_or, drop, replicate, ◌++◌,
}
use mpfpv.Prelude.Map.{Map, lookup, insert}
use mpfpv.Prelude.Words.{u32, u64}
use mpfpv.Prelude.Outcome.{Result, ok, err, Run, returns, panics, ◌>>=◌, ◌>>◌}
use mpfpv.Prelude.Slices.{index}
use mpfpv.Protocol.Dedup.{is_duplicate}
use mpfpv.Protocol.Packet.{
  Header, DecodeError, decode_header, encode_header, uint32_at, header_size, version1, type_data,
  type_heartbeat,
}
use mpfpv.Server.State.{Addr, addr_eq, AddrInfo, ClientSession, Server, Effect, tun_write, Step}
use mpfpv.Server.Send.{send_to_client}
use mpfpv.Server.Heartbeat.{handle_heartbeat}

-- if ai, ok := session.Addrs[addrKey]; ok { ... }
abbrev pub update_addr : Addr → (AddrInfo → AddrInfo) → Map Addr AddrInfo → Map Addr AddrInfo
update_addr from f addrs = elim (lookup from addrs) [
  | none ↦ addrs
  | some ai ↦ insert from (f ai) addrs
]

-- The session after a data packet from `from`.
abbrev pub seen_data : ℕ → Addr → ClientSession → ClientSession
seen_data now from session = record session {
  addrs = update_addr from (λ ai. record ai { last_seen = now }) session.addrs;
  last_seen = now;
  last_data_addr = some from;
}

abbrev pub inner_src : List ℕ → ℕ
inner_src payload = uint32_at payload 12

abbrev pub inner_dst : List ℕ → ℕ
inner_dst payload = uint32_at payload 16

-- len(payload) < 20 || payload[0]>>4 != 4
abbrev pub is_bad_inner : List ℕ → Bool
is_bad_inner payload = ltb (length payload) 20 || not (get_or payload 0 0 / 2 ^ 4 == 4)

-- The bytes of the packet are counted before it is looked at.
abbrev count_session : Server → ℕ → Addr → ℕ → Option ClientSession → Server
count_session s client_id from n none = s
count_session s client_id from n (some session) = record s {
  sessions =
      insert client_id
        (record session {
          rx_bytes = u64 (session.rx_bytes + n);
          addrs =
              update_addr from (λ ai. record ai { rx_bytes = u64 (ai.rx_bytes + n) }) session.addrs;
        })
        s.sessions;
}

unfoldable pub count_rx : Server → ℕ → Addr → ℕ → Server
count_rx s client_id from n =
    count_session (record s { total_rx = u64 (s.total_rx + n) }) client_id from n
      (lookup client_id s.sessions)

module _ (write_ok : Addr → Bool) where
  -- The packet goes to the TUN device, to the client that the route names, or nowhere.
  unfoldable pub deliver : Server → List ℕ → List ℕ → Step
  deliver s payload packet =
      if inner_dst payload == s.server_virtual_ip
      then (s, if s.tun_available then tun_write payload ∷ [] else [])
      else elim (lookup (inner_dst payload) s.route_table) [
        | none ↦ (s, [])
        | some client_id ↦ send_to_client write_ok s client_id packet
      ]

  -- A packet that is not IPv4 is dropped, and the log line reads its first byte.
  unfoldable pub forward_data : ℕ → Server → ℕ → List ℕ → Addr → List ℕ → ClientSession → Run Step
  forward_data now s client_id payload from packet session =
      if is_bad_inner payload
      then (do first ← index payload 0; returns (s, []))
      else if not (inner_src payload == session.virtual_ip)
      then returns (s, [])
      else returns (
          deliver (record s { sessions = insert client_id (seen_data now from session) s.sessions })
            payload packet)

  abbrev forward_known : ℕ → Server → ℕ → List ℕ → Addr → List ℕ → Option ClientSession → Run Step
  forward_known now s client_id payload from packet none = returns (s, [])
  forward_known now s client_id payload from packet (some session) =
      forward_data now s client_id payload from packet session

  unfoldable pub handle_data : ℕ → Server → Header → List ℕ → Addr → List ℕ → Run Step
  handle_data now s hdr payload from packet =
      let (dup, dedup) = is_duplicate s.dedup hdr.client_id hdr.seq in
      let s' : Server = record s { dedup = dedup } in
      if dup
      then returns (s', [])
      else forward_known now s' hdr.client_id payload from packet (lookup hdr.client_id s'.sessions)

  unfoldable pub dispatch : ℕ → Server → Header → List ℕ → Addr → Run Step
  dispatch now s hdr packet from =
      if hdr.type == type_heartbeat
      then handle_heartbeat now s hdr (drop header_size packet) from
      else if hdr.type == type_data
      then handle_data now s hdr (drop header_size packet) from packet
      else returns (s, [])

  abbrev handle_decoded : ℕ → Server → List ℕ → Addr → Result DecodeError Header → Run Step
  handle_decoded now s packet from (err e) = returns (s, [])
  handle_decoded now s packet from (ok hdr) =
      dispatch now (count_rx s hdr.client_id from (length packet)) hdr packet from

  unfoldable pub handle_packet : ℕ → Server → List ℕ → Addr → Run Step
  handle_packet now s packet from =
      if ltb (length packet) header_size
      then returns (s, [])
      else handle_decoded now s packet from (decode_header packet)

  -- A packet that the server's own TUN device hands over, of which `n` bytes were read.
  abbrev tun_route : Server → List ℕ → Option ℕ → Step
  tun_route s payload none = (s, [])
  tun_route s payload (some client_id) =
      let header = encode_header (replicate header_size 0) (record {
        version = version1;
        type = type_data;
        priority = false;
        client_id = 0;
        seq = s.seq;
      }) in
      send_to_client write_ok (record s { seq = u32 (s.seq + 1) }) client_id (header ++ payload)

  unfoldable pub tun_packet : Server → List ℕ → Step
  tun_packet s payload =
      if is_bad_inner payload
      then (s, [])
      else tun_route s payload (lookup (inner_dst payload) s.route_table)
