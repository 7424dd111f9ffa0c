-- ===== src/Tests/Packet.antt =====
-- Runs of internal/protocol/packet.go.
use mpfpv.Prelude.{ℕ, ◌≡◌, refl, arith, List, [], ◌∷◌, ◌++◌, true, none, replicate, take}
use mpfpv.Prelude.Outcome.{ok, returns, Returns}
use mpfpv.Protocol.Packet.{
  Header, HeartbeatPayload, HeartbeatAckPayload, PathRtt, decode_heartbeat,
  encode_heartbeat_with_name, path_suffix, find_separator,
}
use mpfpv.Protocol.Packet.Headers.{IsHeader}
use mpfpv.Protocol.Packet.Heartbeats.{decode_heartbeat-Returns}
use mpfpv.Protocol.Packet.RoundTrip.{IsPath, IsHeartbeat}
use mpfpv.Protocol.Packet.Exchange.{decode_heartbeat-encode_path}

abbrev header : Header
header = record { version = 0x10; type = 1; priority = true; client_id = 258; seq = 77 }

header-IsHeader : IsHeader header
header-IsHeader = record {
  version = refl;
  type = omega arith;
  client_id = omega arith;
  seq = omega arith;
}

abbrev heartbeat : HeartbeatPayload
heartbeat = record {
  virtual_ip = 10 ∷ 99 ∷ 0 ∷ 2 ∷ [];
  prefix_len = 24;
  send_mode = 1;
  reply_port = 9801;
  team_key_hash = 1 ∷ 2 ∷ 3 ∷ 4 ∷ 5 ∷ 6 ∷ 7 ∷ 8 ∷ [];
  device_name = [];
  path_rtts = [];
}

heartbeat-IsHeartbeat : IsHeartbeat heartbeat
heartbeat-IsHeartbeat = record { ip = refl; port = omega arith; hash = refl }

abbrev wifi : PathRtt
wifi = record { name = 119 ∷ 108 ∷ []; rtt_ms = 31; tx_bytes = 70000; rx_bytes = 12 }

wifi-IsPath : IsPath wifi
wifi-IsPath = record { name = omega arith; rtt = omega arith; tx = omega arith; rx = omega arith }

abbrev ack : HeartbeatAckPayload
ack = record { assigned_ip = 10 ∷ 99 ∷ 0 ∷ 2 ∷ []; prefix_len = 24; status = 0; mtu = 1300 }

abbrev buf : List ℕ
buf = replicate 40 0

abbrev phone : List ℕ
phone = 112 ∷ 104 ∷ []

phone-clean : find_separator phone ≡ none
unfolding find_separator
phone-clean = refl

decode_heartbeat-Returns_example : Returns (decode_heartbeat (replicate 17 9))
decode_heartbeat-Returns_example = decode_heartbeat-Returns (replicate 17 9)

decode_heartbeat-encode_path_example :
    let (written, n) = encode_heartbeat_with_name buf heartbeat phone in
    decode_heartbeat (take n written ++ path_suffix wifi)
    ≡ returns (ok (record heartbeat { device_name = phone; path_rtts = wifi ∷ [] }))
decode_heartbeat-encode_path_example =
    decode_heartbeat-encode_path heartbeat heartbeat-IsHeartbeat buf phone wifi (omega arith)
      phone-clean wifi-IsPath
