-- ===== src/Joint/Heartbeat.antt =====
-- sendHeartbeat of internal/client/client.go against handlePacket of internal/server/server.go.
use mpfpv.Prelude.{
  ℕ, ◌+◌, ◌≤◌, ◌≡◌, refl, ◌∙◌, arith, List, [], Bool, none, length, drop, take, replicate,
  length-replicate, length-drop,
}
use mpfpv.Prelude.Outcome.{ok, returns}
use mpfpv.Protocol.Packet.{
  HeartbeatPayload, encode_header, decode_header, decode_heartbeat, encode_heartbeat_with_name,
  find_separator, header_size, heartbeat_payload_size, type_heartbeat,
}
use mpfpv.Protocol.Packet.RoundTrip.{IsHeartbeat}
use mpfpv.Protocol.Packet.Exchange.{decode_heartbeat-encode_name}
use mpfpv.Server.State.{Addr, Server}
use mpfpv.Server.Data.{handle_packet, dispatch, count_rx}
use mpfpv.Server.Data.Panics.{handle_packet-dispatch}
use mpfpv.Server.Heartbeat.{handle_heartbeat, check_heartbeat}
use mpfpv.Client.State.{Client}
use mpfpv.Client.Sending.{header_of, heartbeat_payload, heartbeat_bytes}
use mpfpv.Joint.Headers.{IsNumbered, header_of-IsHeader, split-encode_header, decode_header-take}

-- What the client puts into its heartbeat can be written there.
pub record IsBeating (c : Client) : Type 0 where
  pub numbered : IsNumbered c
  pub payload : IsHeartbeat (heartbeat_payload c)
  pub name : find_separator c.device_name ≡ none

-- The buffer that sendHeartbeat makes, with room for the name behind the fixed part.
abbrev pub buffer : Client → List ℕ
buffer c = replicate (header_size + heartbeat_payload_size + length c.device_name + 256) 0

pub length-buffer : (c : Client) → length (buffer c) ≡ 280 + length c.device_name
length-buffer c = omega (
  arith,
  length-replicate {A = ℕ} (header_size + heartbeat_payload_size + length c.device_name + 256) 0,
)

module _ (c : Client) (valid : IsBeating c) where
  decode_header-heartbeat_bytes :
      decode_header (heartbeat_bytes c) ≡ ok (header_of c type_heartbeat)
  unfolding heartbeat_bytes
  decode_header-heartbeat_bytes =
      decode_header-take (buffer c) _ (header_of c type_heartbeat) (omega (arith, length-buffer c))
        (header_of-IsHeader c type_heartbeat valid.numbered (omega arith))

  decode_heartbeat-heartbeat_bytes :
      decode_heartbeat (drop header_size (heartbeat_bytes c))
      ≡ returns (ok (record (heartbeat_payload c) { device_name = c.device_name; path_rtts = [] }))
  unfolding heartbeat_bytes
  decode_heartbeat-heartbeat_bytes =
      let long : 8 ≤ length (buffer c) = omega (arith, length-buffer c) in
      let header = header_of c type_heartbeat in
      let (written, n) =
        encode_heartbeat_with_name (drop header_size (encode_header (buffer c) header))
          (heartbeat_payload c) c.device_name in
      let (_, behind, rest) = split-encode_header (buffer c) (take n written) header long in
      rw rest (
        rw behind (
          decode_heartbeat-encode_name (heartbeat_payload c) valid.payload
            (drop header_size (buffer c)) c.device_name
            (omega (arith, length-drop header_size (buffer c), length-buffer c)) valid.name))

  -- The heartbeat as the server takes it from the datagram.
  abbrev pub beat_of : HeartbeatPayload
  beat_of = record (heartbeat_payload c) { device_name = c.device_name; path_rtts = [] }

  pub handle_packet-heartbeat_bytes :
      (write_ok : Addr → Bool) (now : ℕ) (s : Server) (from : Addr)
      → handle_packet write_ok now s (heartbeat_bytes c) from
        ≡ returns (
            check_heartbeat now
              (count_rx s c.client_id from (length (heartbeat_bytes c)))
              (header_of c type_heartbeat)
              beat_of
              from)
  unfolding dispatch handle_heartbeat
  handle_packet-heartbeat_bytes write_ok now s from =
      handle_packet-dispatch write_ok now s (heartbeat_bytes c) from (header_of c type_heartbeat)
        decode_header-heartbeat_bytes
      ∙ rw decode_heartbeat-heartbeat_bytes refl
