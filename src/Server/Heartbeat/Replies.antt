-- ===== src/Server/Heartbeat/Replies.antt =====
-- The acknowledgements that the server sends, as the client's decoders read them, and the heartbeats
-- that change nothing.
use mpfpv.Prelude.{
  ◌+◌, ℕ, ◌^◌, ◌<◌, ◌≡◌, ◌≢◌, refl, arith, List, [], ◌∷◌, ◌++◌, false, some, ◌==◌, nat_eq,
  bytes_beq, bytes_beq_iff, Bool-cases, inl, inr, replicate, drop,
}
use mpfpv.Prelude.Map.{lookup}
use mpfpv.Prelude.Words.{u16, u32}
use mpfpv.Prelude.Outcome.{ok}
use mpfpv.Protocol.Packet.{
  Header, HeartbeatPayload, encode_header, decode_header, decode_heartbeat_ack, be32, uint32_at,
  header_size, heartbeat_ack_payload_size, type_heartbeat_ack, version1,
}
use mpfpv.Protocol.Packet.Headers.{IsHeader, decode_header-encode_header}
use mpfpv.Protocol.Packet.Exchange.{decode_heartbeat_ack-encode}
use mpfpv.Server.State.{Addr, ClientSession, Server, udp}
use mpfpv.Server.Send.{send_heartbeat_ack}
use mpfpv.Server.Heartbeat.{check_heartbeat, accept, accept_known}

-- The bytes are an acknowledgement of the server, read with the decoders of packet.go.
pub record IsAck (bytes : List ℕ) (seq ip prefix_len status mtu : ℕ) : Type 0 where
  pub header :
      decode_header bytes
      ≡ ok (record {
        version = version1;
        type = type_heartbeat_ack;
        priority = false;
        client_id = 0;
        seq = seq;
      })
  pub payload :
      decode_heartbeat_ack (drop header_size bytes)
      ≡ ok (record { assigned_ip = be32 ip; prefix_len = prefix_len; status = status; mtu = mtu })

ack-IsHeader :
    (seq : ℕ)
    → seq < 2 ^ 32
    → IsHeader (record {
      version = version1;
      type = type_heartbeat_ack;
      priority = false;
      client_id = 0;
      seq = seq;
    })
ack-IsHeader seq h = record { version = refl; type = omega arith; client_id = omega arith; seq = h }

-- An acknowledgement of the server is one datagram, which the decoders of the protocol read as an
-- acknowledgement from client 0 with the server's sequence number, below 2 ^ 32, and with the
-- address, the prefix length, the status and the MTU that were meant; the sequence number then
-- moves on by one, in 32 bits.
pub send_heartbeat_ack-IsAck :
    (s : Server) (to : Addr) (ip prefix_len status : ℕ)
    → s.seq < 2 ^ 32
    → (bytes : List ℕ) × ((send_heartbeat_ack s to ip prefix_len status).1 ≡ udp to bytes ∷ [])
      × IsAck bytes s.seq ip prefix_len status (u16 s.mtu)
      × ((send_heartbeat_ack s to ip prefix_len status).0.seq ≡ u32 (s.seq + 1))
unfolding send_heartbeat_ack encode_header
send_heartbeat_ack-IsAck s to ip prefix_len status h = (
  _,
  refl,
  record {
    header =
        decode_header-encode_header (replicate header_size 0 ++ _) _ (omega arith)
          (ack-IsHeader s.seq h);
    payload =
        decode_heartbeat_ack-encode (replicate heartbeat_ack_payload_size 0)
          (record {
            assigned_ip = be32 ip;
            prefix_len = prefix_len;
            status = status;
            mtu = u16 s.mtu;
          })
          (omega arith) refl (omega arith);
  },
  refl,
)

-- Why a heartbeat is refused: another team, no client, or an address that is not the session's.
pub data IsRefused (s : Server) (hdr : Header) (hb : HeartbeatPayload) : Type 0 where
  wrong_team : hb.team_key_hash ≢ s.team_key_hash → IsRefused s hdr hb
  no_client : hdr.client_id ≡ 0 → IsRefused s hdr hb
  conflict :
      (session : ClientSession)
      → lookup hdr.client_id s.sessions ≡ some session
      → uint32_at hb.virtual_ip 0 ≢ 0
      → uint32_at hb.virtual_ip 0 ≢ session.virtual_ip
      → IsRefused s hdr hb

-- A heartbeat with another team's key, with client ID 0, or with an address that is neither
-- 0.0.0.0 nor that of the client's session changes nothing in the server but its own sequence
-- number.
pub check_heartbeat_refused :
    (now : ℕ) (s : Server) (hdr : Header) (hb : HeartbeatPayload) (from : Addr)
    → IsRefused s hdr hb
    → (check_heartbeat now s hdr hb from).0
      ≡ record s { seq = (check_heartbeat now s hdr hb from).0.seq }
unfolding check_heartbeat accept accept_known send_heartbeat_ack
check_heartbeat_refused now s hdr hb from (wrong_team other) =
    let differ : bytes_beq hb.team_key_hash s.team_key_hash ≡ false =
      ground (arith, bytes_beq_iff hb.team_key_hash s.team_key_hash, other) in
    rw (differ, check_heartbeat) refl
check_heartbeat_refused now s hdr hb from (no_client none') = ground (arith, none')
check_heartbeat_refused now s hdr hb from (conflict session known nonzero other) =
    let no_ip : (uint32_at hb.virtual_ip 0 == 0) ≡ false = ground (arith, nonzero) in
    let moved : (session.virtual_ip == uint32_at hb.virtual_ip 0) ≡ false = ground (arith, other) in
    elim (Bool-cases (bytes_beq hb.team_key_hash s.team_key_hash)) [
      | inr differ ↦ rw (differ, check_heartbeat) refl
      | inl same ↦ elim (Bool-cases (hdr.client_id == 0)) [
        | inl none' ↦ rw (same, none', check_heartbeat) refl
        | inr named ↦
            rw (same, named, check_heartbeat)
              (rw (known, accept) (rw (no_ip, moved, accept_known) refl))
      ]
    ]
