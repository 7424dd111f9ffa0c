-- ===== src/Client/Sending.antt =====
-- tunReadLoop, sendHeartbeat and Send of internal/client/client.go: what the client sends. Whether the
-- write on a path, or on the single socket, succeeds is a parameter.
use mpfpv.Prelude.{
  ℕ, ◌+◌, ◌/◌, ◌^◌, List, [], ◌∷◌, ◌++◌, Bool, false, not, ◌&&◌, ◌||◌, Option, none, some, ltb,
  ◌==◌, if◌then◌else◌, length, get_or, take, drop, replicate, bytes_beq,
}
use mpfpv.Prelude.Words.{u16, u32}
use mpfpv.Prelude.Outcome.{Run, returns, ◌>>=◌}
use mpfpv.Prelude.Slices.{put}
use mpfpv.Protocol.Packet.{
  Header, HeartbeatPayload, encode_header, encode_heartbeat_with_name, path_suffix, header_size,
  heartbeat_payload_size, version1, type_data, type_heartbeat,
}
use mpfpv.Config.{is_empty}
use mpfpv.Transport.Paths.{Sender}
use mpfpv.Transport.Output.{Sent, SendError, write_failed, send, send_all_heartbeat}
use mpfpv.Client.State.{Client, ClientEffect, path_udp, conn_udp, ClientStep, ipv4_zero}
use mpfpv.Client.Checksum.{recalc_ipv4_checksum}

abbrev pub header_of : Client → ℕ → Header
header_of c type = record {
  version = version1;
  type = type;
  priority = false;
  client_id = c.client_id;
  seq = c.seq;
}

-- atomic.AddUint32(&c.seq, 1)
abbrev pub next_seq : Client → Client
next_seq c = record c { seq = u32 (c.seq + 1) }

abbrev on_paths : List (List ℕ × List ℕ) → List ClientEffect
on_paths [] = []
on_paths ((name, bytes) ∷ rest) = path_udp name bytes ∷ on_paths rest

abbrev sent_over : Client → Sender → Sent → ClientStep × Option SendError
sent_over c m (paths, out, error) =
    ((record c { multipath = some (record m { paths = paths }) }, on_paths out), error)

-- The bytes that TypeData and the header put before a payload.
unfoldable pub data_packet : Client → List ℕ → List ℕ
data_packet c payload =
    put (encode_header (replicate (header_size + length payload) 0) (header_of c type_data))
      header_size payload

-- vip4 := c.virtualIPVal.Load().(net.IP), copied over the source address if it is set.
unfoldable pub rewrite_source : Client → List ℕ → Run (List ℕ)
rewrite_source c packet =
    if length c.virtual_ip == 4 && not (bytes_beq c.virtual_ip ipv4_zero)
    then recalc_ipv4_checksum (put packet 12 c.virtual_ip)
    else returns packet

-- n < 20, or a version nibble other than 4
abbrev pub is_dropped : List ℕ → Bool
is_dropped packet = ltb (length packet) 20 || not (get_or packet 0 0 / 2 ^ 4 == 4)

-- The heartbeat as sendHeartbeat fills it in.
abbrev pub heartbeat_payload : Client → HeartbeatPayload
heartbeat_payload c = record {
  virtual_ip = c.virtual_ip;
  prefix_len = c.prefix_len;
  send_mode = c.send_mode;
  reply_port = elim c.multipath [ none ↦ 0 | some m ↦ c.recv_port ];
  team_key_hash = c.team_key_hash;
  device_name = [];
  path_rtts = [];
}

unfoldable pub heartbeat_bytes : Client → List ℕ
heartbeat_bytes c =
    let size = header_size + heartbeat_payload_size + length c.device_name + 256 in
    let buf = encode_header (replicate size 0) (header_of c type_heartbeat) in
    let (written, n) =
      encode_heartbeat_with_name (drop header_size buf) (heartbeat_payload c) c.device_name in
    take header_size buf ++ take n written

-- The entry of the virtual path: its name, the last RTT in milliseconds, and no bytes counted.
abbrev pub virtual_suffix : Client → List ℕ
virtual_suffix c =
    if is_empty c.virtual_path_name
    then []
    else path_suffix (record {
      name = c.virtual_path_name;
      rtt_ms = u16 (c.last_rtt / 1000000);
      tx_bytes = 0;
      rx_bytes = 0;
    })

module _ (write_ok : List ℕ → Bool) (conn_ok : Bool) where
  abbrev pub to_server_over : Client → List ℕ → Option Sender → ClientStep × Option SendError
  to_server_over c bytes (some m) = sent_over c m (send write_ok bytes m)
  to_server_over c bytes none =
      ((c, conn_udp bytes ∷ []), if conn_ok then none else some write_failed)

  unfoldable pub to_server : Client → List ℕ → ClientStep × Option SendError
  to_server c bytes = to_server_over c bytes c.multipath

  -- `packet` is what the TUN device hands over.
  unfoldable pub tun_read : Client → List ℕ → Run ClientStep
  tun_read c packet = if is_dropped packet then returns (c, []) else (do
    payload ← rewrite_source c packet
    let header = encode_header (replicate header_size 0) (header_of c type_data)
    let (step, error) = to_server (next_seq c) (header ++ payload)
    returns step)

  abbrev pub heartbeat_over :
      Client → List ℕ → List ℕ → Option Sender → ClientStep × Option SendError
  heartbeat_over c bytes suffix (some m) = sent_over c m (send_all_heartbeat write_ok bytes m.paths)
  heartbeat_over c bytes suffix none =
      ((c, conn_udp (bytes ++ suffix) ∷ []), if conn_ok then none else some write_failed)

  unfoldable pub send_heartbeat : ℕ → Client → ClientStep × Option SendError
  send_heartbeat now c =
      heartbeat_over (record (next_seq c) { last_heartbeat_sent = some now }) (heartbeat_bytes c)
        (virtual_suffix c) c.multipath

  -- `Send`, the call of other packages.
  unfoldable pub send_payload : Client → List ℕ → ClientStep × Option SendError
  send_payload c payload = to_server (next_seq c) (data_packet c payload)
