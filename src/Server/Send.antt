-- ===== src/Server/Send.antt =====
-- sendToClient and sendHeartbeatAck of internal/server/server.go. What the network does with a
-- datagram is a parameter: whether WriteToUDP to an address succeeds.
pub mod Modes
use mpfpv.Prelude.{
  ℕ, zero, suc, ◌+◌, ◌-◌, ◌^◌, List, [], ◌∷◌, ◌++◌, Bool, true, false, not, ◌&&◌, Option, none,
  some, ◌==◌, ltb, if◌then◌else◌, nat_eq, length, replicate, drop,
}
use mpfpv.Prelude.Map.{Map, lookup, insert}
use mpfpv.Prelude.Words.{u16, u32, u64}
use mpfpv.Prelude.Slices.{put}
use mpfpv.Protocol.Packet.{
  Header, encode_header, encode_heartbeat_ack, be32, version1, type_heartbeat_ack, header_size,
  heartbeat_ack_payload_size, send_mode_failover,
}
use mpfpv.Server.State.{Addr, AddrInfo, ClientSession, Server, Effect, udp, Step}

-- session.TxBytes += pktLen; s.totalTx += pktLen
abbrev count_tx : Server → ℕ → ℕ → Server
count_tx s client_id n = elim (lookup client_id s.sessions) [
  | none ↦ record s { total_tx = u64 (s.total_tx + n) }
  | some session ↦ record s {
    total_tx = u64 (s.total_tx + n);
    sessions =
        insert client_id (record session { tx_bytes = u64 (session.tx_bytes + n) }) s.sessions;
  }
]

-- The copy to the reply port, if that is another port.
abbrev pub reply_copy : ℕ → Addr → List ℕ → List Effect
reply_copy reply_port dst packet =
    if ltb 0 reply_port && not (reply_port == dst.port)
    then udp (record dst { port = reply_port }) packet ∷ []
    else []

module _ (write_ok : Addr → Bool) where
  unfoldable pub send_to : Server → ℕ → ℕ → List ℕ → Addr → Step
  send_to s client_id reply_port packet dst =
      if write_ok dst
      then (count_tx s client_id (length packet), udp dst packet ∷ reply_copy reply_port dst packet)
      else (s, udp dst packet ∷ [])

  unfoldable pub send_to_all : Server → ℕ → ℕ → List ℕ → List (Addr × AddrInfo) → Step
  send_to_all s client_id reply_port packet [] = (s, [])
  send_to_all s client_id reply_port packet ((key, ai) ∷ rest) =
      let (s', sent) = send_to s client_id reply_port packet ai.addr in
      let (s'', more) = send_to_all s' client_id reply_port packet rest in (s'', sent ++ more)

  -- The address that last sent a data packet, or else the first.
  unfoldable pub send_failover :
      Server → ℕ → ℕ → List ℕ → Option Addr → List (Addr × AddrInfo) → Step
  send_failover s client_id reply_port packet (some dst) addrs =
      send_to s client_id reply_port packet dst
  send_failover s client_id reply_port packet none [] = (s, [])
  send_failover s client_id reply_port packet none ((key, ai) ∷ rest) =
      send_to s client_id reply_port packet ai.addr

  unfoldable pub send_session : Server → ℕ → List ℕ → ClientSession → List (Addr × AddrInfo) → Step
  send_session s client_id packet session [] = (s, [])
  send_session s client_id packet session (a ∷ addrs) =
      if session.send_mode == send_mode_failover
      then send_failover s client_id session.reply_port packet session.last_data_addr (a ∷ addrs)
      else send_to_all s client_id session.reply_port packet (a ∷ addrs)

  unfoldable pub send_to_client : Server → ℕ → List ℕ → Step
  send_to_client s client_id packet = elim (lookup client_id s.sessions) [
    | none ↦ (s, [])
    | some session ↦ send_session s client_id packet session session.addrs
  ]

-- atomic.AddUint32(&s.seq, 1) - 1 is the number before; the acknowledgement goes to `to`.
unfoldable pub send_heartbeat_ack : Server → Addr → ℕ → ℕ → ℕ → Step
send_heartbeat_ack s to ip prefix_len status =
    let header = encode_header (replicate header_size 0) (record {
      version = version1;
      type = type_heartbeat_ack;
      priority = false;
      client_id = 0;
      seq = s.seq;
    }) in
    let ack = encode_heartbeat_ack (replicate heartbeat_ack_payload_size 0) (record {
      assigned_ip = be32 ip;
      prefix_len = prefix_len;
      status = status;
      mtu = u16 s.mtu;
    }) in
    (record s { seq = u32 (s.seq + 1) }, udp to (header ++ ack) ∷ [])
