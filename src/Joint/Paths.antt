-- ===== src/Joint/Paths.antt =====
-- A client's heartbeat on one of its paths, from SendAllHeartbeat of internal/transport/multipath.go to
-- the session in internal/server/server.go.
use mpfpv.Prelude.{
  ℕ, ◌+◌, ◌/◌, ◌<◌, ◌≤◌, ◌≡◌, ◌⊎◌, refl, sym, ◌∙◌, arith, List, [], ◌∷◌, ◌++◌, Bool, true, some,
  length, take, drop, length-drop, ==_refl, nat_eq, Option-cases, inl, inr,
}
use mathlib.Core.List.{append_assoc}
use mpfpv.Prelude.Map.{Map, HasDistinctKeys, lookup, lookup-insert}
use mpfpv.Prelude.Words.{u16, u32, u64}
use mpfpv.Prelude.Outcome.{ok, returns}
use mpfpv.Protocol.Packet.{
  HeartbeatPayload, PathRtt, encode_header, decode_header, decode_heartbeat, path_suffix,
  encode_heartbeat_with_name, header_size, type_heartbeat, uint32_at,
}
use mpfpv.Protocol.Packet.RoundTrip.{IsPath}
use mpfpv.Protocol.Packet.Exchange.{decode_heartbeat-encode_path}
use mpfpv.Server.State.{Addr, addr_eq, AddrInfo, ClientSession, Server, Effect}
use mpfpv.Server.Pool.{is_named}
use mpfpv.Server.Data.{handle_packet, dispatch, count_rx, update_addr}
use mpfpv.Server.Data.Panics.{handle_packet-dispatch}
use mpfpv.Server.Heartbeat.{handle_heartbeat, check_heartbeat}
use mpfpv.Server.Heartbeat.Nics.{IsMoved, check_heartbeat-IsMoved, insert-HasDistinctKeys}
use mpfpv.Client.State.{Client}
use mpfpv.Client.Sending.{header_of, heartbeat_payload, heartbeat_bytes}
use mpfpv.Transport.Paths.{NetPath}
use mpfpv.Transport.Output.{heartbeat_of}
use mpfpv.Joint.Headers.{header_of-IsHeader, split-encode_header, decode_header-take}
use mpfpv.Joint.Heartbeat.{IsBeating, buffer, length-buffer}

-- The addresses once the server has counted the bytes of a datagram from one of them.
abbrev pub counted : Addr → ℕ → Map Addr AddrInfo → Map Addr AddrInfo
counted from n addrs = update_addr from (λ ai. record ai { rx_bytes = u64 (ai.rx_bytes + n) }) addrs

counted-HasDistinctKeys :
    (from : Addr) (n : ℕ) (addrs : Map Addr AddrInfo)
    → HasDistinctKeys addrs
    → HasDistinctKeys (counted from n addrs)
counted-HasDistinctKeys from n addrs distinct = elim (Option-cases (lookup from addrs)) [
  | inl absent ↦ rw (absent, counted, HasDistinctKeys) distinct
  | inr (ai, found) ↦
      rw (found, counted, HasDistinctKeys) (insert-HasDistinctKeys from _ addrs distinct)
]

abbrev counted_session : Addr → ℕ → ClientSession → ClientSession
counted_session from n session = record session {
  rx_bytes = u64 (session.rx_bytes + n);
  addrs = counted from n session.addrs;
}

lookup-count_rx :
    (s : Server) (id : ℕ) (from : Addr) (n : ℕ) (session : ClientSession)
    → lookup id s.sessions ≡ some session
    → (lookup id (count_rx s id from n).sessions ≡ some (counted_session from n session))
      × ((count_rx s id from n).team_key_hash ≡ s.team_key_hash)
unfolding count_rx
lookup-count_rx s id from n session known = (
  rw (known, count_rx)
      (lookup-insert id id (counted_session from n session) s.sessions ∙ rw (==_refl id) refl),
  rw (known, count_rx) refl,
)

module _ (c : Client) (valid : IsBeating c) (p : PathRtt) (valid_path : IsPath p) where
  abbrev beat_on : HeartbeatPayload
  beat_on = record (heartbeat_payload c) { device_name = c.device_name; path_rtts = p ∷ [] }

  decode_header-path_suffix :
      decode_header (heartbeat_bytes c ++ path_suffix p) ≡ ok (header_of c type_heartbeat)
  unfolding heartbeat_bytes
  decode_header-path_suffix =
      let buf = encode_header (buffer c) (header_of c type_heartbeat) in
      let (written, n) =
        encode_heartbeat_with_name (drop header_size buf) (heartbeat_payload c) c.device_name in
      rw (append_assoc (take header_size buf) (take n written) (path_suffix p)) (
        decode_header-take (buffer c) (take n written ++ path_suffix p) (header_of c type_heartbeat)
          (omega (arith, length-buffer c))
          (header_of-IsHeader c type_heartbeat valid.numbered (omega arith)))

  decode_heartbeat-path_suffix :
      decode_heartbeat (drop header_size (heartbeat_bytes c ++ path_suffix p))
      ≡ returns (ok beat_on)
  unfolding heartbeat_bytes
  decode_heartbeat-path_suffix =
      let long : 8 ≤ length (buffer c) = omega (arith, length-buffer c) in
      let header = header_of c type_heartbeat in
      let buf = encode_header (buffer c) header in
      let (written, n) =
        encode_heartbeat_with_name (drop header_size buf) (heartbeat_payload c) c.device_name in
      let (_, behind, rest) =
        split-encode_header (buffer c) (take n written ++ path_suffix p) header long in
      rw (append_assoc (take header_size buf) (take n written) (path_suffix p)) (
        rw rest (
          rw behind (
            decode_heartbeat-encode_path (heartbeat_payload c) valid.payload
              (drop header_size (buffer c)) c.device_name p
              (omega (arith, length-drop header_size (buffer c), length-buffer c)) valid.name
              valid_path)))

  handle_packet-path_suffix :
      (write_ok : Addr → Bool) (now : ℕ) (s : Server) (from : Addr)
      → handle_packet write_ok now s (heartbeat_bytes c ++ path_suffix p) from
        ≡ returns (
            check_heartbeat now
              (count_rx s c.client_id from (length (heartbeat_bytes c ++ path_suffix p)))
              (header_of c type_heartbeat)
              beat_on
              from)
  unfolding dispatch handle_heartbeat
  handle_packet-path_suffix write_ok now s from =
      handle_packet-dispatch write_ok now s (heartbeat_bytes c ++ path_suffix p) from
        (header_of c type_heartbeat) decode_header-path_suffix
      ∙ rw decode_heartbeat-path_suffix refl

-- What a path's heartbeat says of the path.
abbrev pub path_data : List ℕ → NetPath → PathRtt
path_data name path = record {
  name = name;
  rtt_ms = u16 (path.rtt / 1000000);
  tx_bytes = u32 path.tx_bytes;
  rx_bytes = u32 path.rx_bytes;
}

-- The heartbeat of a client with a session on a path with a name of 1 to 255 bytes is taken by the
-- server. With the team's key, and the session's address or 0.0.0.0 in it, it leaves a session in
-- which the sender's address was seen now and has the path's name, its RTT in milliseconds, in 16
-- bits, and its byte counts, in 32 bits; every other address with the same path name is gone, the
-- addresses of other paths are as before, and no address stands twice. The numbers of the client
-- fit their fields, its device's name has no zero byte, and no address stood twice before.
pub heartbeat_of-IsMoved :
    (write_ok : Addr → Bool) (paths_ok : List ℕ → Bool) (now : ℕ) (s : Server) (from : Addr)
    (c : Client) (name : List ℕ) (path : NetPath) (session : ClientSession)
    → IsBeating c
    → is_named name ≡ true
    → length name < 256
    → c.team_key_hash ≡ s.team_key_hash
    → lookup c.client_id s.sessions ≡ some session
    → (uint32_at c.virtual_ip 0 ≡ 0) ⊎ (uint32_at c.virtual_ip 0 ≡ session.virtual_ip)
    → HasDistinctKeys session.addrs
    → let bytes = heartbeat_of paths_ok (heartbeat_bytes c) name path in
      (t : Server) × (es : List Effect) × (moved : ClientSession) × (handle_packet write_ok now s
          bytes from
        ≡ returns (t, es))
      × (lookup c.client_id t.sessions ≡ some moved)
      × IsMoved now from
          (path_data name path)
          (counted from (length bytes) session.addrs)
          moved.addrs
heartbeat_of-IsMoved write_ok paths_ok now s from c name path session valid named short key known
      same distinct =
    let p = path_data name path in
    let valid_path : IsPath p = record {
      name = short;
      rtt = omega arith;
      tx = omega arith;
      rx = omega arith;
    } in
    let n = length (heartbeat_bytes c ++ path_suffix p) in
    let (known', key') = lookup-count_rx s c.client_id from n session known in
    let (moved, found, is_moved) =
      check_heartbeat-IsMoved now (count_rx s c.client_id from n) (header_of c type_heartbeat)
        (beat_on c valid p valid_path) from (counted_session from n session) p [] (key ∙ sym key')
        (omega (arith, valid.numbered.positive)) known' same refl named
        (counted-HasDistinctKeys from n session.addrs distinct) in
    (
      _,
      _,
      moved,
      handle_packet-path_suffix c valid p valid_path write_ok now s from,
      found,
      is_moved,
    )
