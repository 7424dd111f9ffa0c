-- ===== src/Protocol/Packet.antt =====
-- internal/protocol/packet.go and types.go: headers, heartbeats and acknowledgements as bytes.
pub mod Headers
pub mod Heartbeats
pub mod RoundTrip
pub mod Exchange
use Prim.Native.Nat.{bit_and, bit_or, min}
use mpfpv.Prelude.{
  ℕ, zero, suc, ◌+◌, ◌-◌, ◌*◌, ◌/◌, ◌%◌, ◌^◌, List, [], ◌∷◌, ◌++◌, Bool, true, false, not, ◌&&◌,
  Option, none, some, ltb, leb, ◌==◌, if◌then◌else◌, length, get_or, take, drop, set, bytes_beq,
}
use mpfpv.Prelude.Words.{u8, u16, ◌<<<◌, ◌>>>◌}
use mpfpv.Prelude.Outcome.{Result, ok, err, Run, returns, panics, ◌>>=◌, ◌>>◌}
use mpfpv.Prelude.Slices.{index, slice, put}

abbrev pub header_size : ℕ
header_size = 8

abbrev pub version1 : ℕ
version1 = 0x10

abbrev pub type_data : ℕ
type_data = 0x00

abbrev pub type_heartbeat : ℕ
type_heartbeat = 0x01

abbrev pub type_heartbeat_ack : ℕ
type_heartbeat_ack = 0x02

abbrev pub send_mode_redundant : ℕ
send_mode_redundant = 0x00

abbrev pub send_mode_failover : ℕ
send_mode_failover = 0x01

abbrev pub ack_status_ok : ℕ
ack_status_ok = 0x00

abbrev pub ack_status_team_key_mismatch : ℕ
ack_status_team_key_mismatch = 0x01

abbrev pub ack_status_client_id_conflict : ℕ
ack_status_client_id_conflict = 0x02

abbrev pub heartbeat_payload_size : ℕ
heartbeat_payload_size = 16

abbrev pub heartbeat_ack_payload_size : ℕ
heartbeat_ack_payload_size = 8

pub record Header : Type 0 where
  pub version : ℕ
  pub type : ℕ
  pub priority : Bool
  pub client_id : ℕ
  pub seq : ℕ

pub record PathRtt : Type 0 where
  pub name : List ℕ
  pub rtt_ms : ℕ
  pub tx_bytes : ℕ
  pub rx_bytes : ℕ

pub record HeartbeatPayload : Type 0 where
  pub virtual_ip : List ℕ
  pub prefix_len : ℕ
  pub send_mode : ℕ
  pub reply_port : ℕ
  pub team_key_hash : List ℕ
  pub device_name : List ℕ
  pub path_rtts : List PathRtt

pub record HeartbeatAckPayload : Type 0 where
  pub assigned_ip : List ℕ
  pub prefix_len : ℕ
  pub status : ℕ
  pub mtu : ℕ

pub data DecodeError : Type 0 where
  buffer_too_short version_mismatch : DecodeError

-- binary.BigEndian
abbrev pub be16 : ℕ → List ℕ
be16 n = u8 (n / 2 ^ 8) ∷ u8 n ∷ []

abbrev pub be32 : ℕ → List ℕ
be32 n = u8 (n / 2 ^ 24) ∷ u8 (n / 2 ^ 16) ∷ u8 (n / 2 ^ 8) ∷ u8 n ∷ []

abbrev uint16_at : List ℕ → ℕ → ℕ
uint16_at b i = get_or b i 0 * 2 ^ 8 + get_or b (i + 1) 0

abbrev pub uint32_at : List ℕ → ℕ → ℕ
uint32_at b i =
    get_or b i 0 * 2 ^ 24
    + get_or b (i + 1) 0 * 2 ^ 16
    + get_or b (i + 2) 0 * 2 ^ 8
    + get_or b (i + 3) 0

-- net.IP's To4: a slice of four bytes, or of sixteen with the IPv4-in-IPv6 prefix.
unfoldable pub to4 : List ℕ → Option (List ℕ)
to4 ip =
    if length ip == 4
    then some ip
    else if length ip == 16
        && bytes_beq (take 12 ip) (0 ∷ 0 ∷ 0 ∷ 0 ∷ 0 ∷ 0 ∷ 0 ∷ 0 ∷ 0 ∷ 0 ∷ 0xff ∷ 0xff ∷ [])
    then some (drop 12 ip)
    else none

-- ip := x.To4(); if ip == nil { ip = net.IPv4zero.To4() }
unfoldable pub to4_or_zero : List ℕ → List ℕ
unfolding to4
to4_or_zero ip = elim (to4 ip) [ none ↦ 0 ∷ 0 ∷ 0 ∷ 0 ∷ [] | some ip4 ↦ ip4 ]

unfoldable pub encode_header : List ℕ → Header → List ℕ
encode_header buf h =
    let flags = bit_or (bit_and h.version 0xf0) (bit_and h.type 0x0f) in
    let priority : ℕ = if h.priority then 0x01 else 0 in
    put (put (set (set buf 0 flags) 1 priority) 2 (be16 h.client_id)) 4 (be32 h.seq)

-- The reads are below the length that has been tested.
unfoldable pub decode_header : List ℕ → Result DecodeError Header
decode_header buf =
    let version = bit_and (get_or buf 0 0) 0xf0 in
    if ltb (length buf) header_size
    then err buffer_too_short
    else if not (version == version1)
    then err version_mismatch
    else ok (record {
      version = version;
      type = bit_and (get_or buf 0 0) 0x0f;
      priority = not (bit_and (get_or buf 1 0) 0x01 == 0);
      client_id = uint16_at buf 2;
      seq = uint32_at buf 4;
    })

unfoldable pub encode_heartbeat : List ℕ → HeartbeatPayload → List ℕ
unfolding to4_or_zero
encode_heartbeat buf hb =
    let with_ip = put buf 0 (to4_or_zero hb.virtual_ip) in
    let with_mode = set (set with_ip 4 hb.prefix_len) 5 hb.send_mode in
    let with_port = set (set with_mode 6 (u8 (hb.reply_port >>> 8))) 7 (u8 hb.reply_port) in
    put with_port 8 hb.team_key_hash

-- for i, b := range ext { if b == 0x00 { sepIdx = i; break } }
abbrev next_index : Option ℕ → Option ℕ
next_index none = none
next_index (some i) = some (suc i)

unfoldable pub find_separator : List ℕ → Option ℕ
find_separator [] = none
find_separator (b ∷ bs) =
    let rest = next_index (find_separator bs) in if b == 0 then some 0 else rest

-- uint16(d[pos])<<8 | uint16(d[pos+1])
unfoldable pub read_uint16 : List ℕ → ℕ → Run ℕ
unfolding index
read_uint16 d pos = do hi ← index d pos; lo ← index d (pos + 1); returns (bit_or (hi <<< 8) lo)

unfoldable pub read_uint32 : List ℕ → ℕ → Run ℕ
unfolding index
read_uint32 d pos = do
  b3 ← index d pos
  b2 ← index d (pos + 1)
  b1 ← index d (pos + 2)
  b0 ← index d (pos + 3)
  returns (bit_or (bit_or (bit_or (b3 <<< 24) (b2 <<< 16)) (b1 <<< 8)) b0)

-- The per-path data behind the separator: [name_len] [name] [rtt 2B] [tx 4B] [rx 4B].
unfoldable pub decode_path : List ℕ → ℕ → Run (List PathRtt)
decode_path d name_len = do
  let pos : ℕ = 1
  if ltb (length d) (pos + name_len + 2 + 4 + 4) then returns [] else do
    name ← slice d pos (pos + name_len)
    rtt_ms ← read_uint16 d (pos + name_len)
    tx ← read_uint32 d (pos + name_len + 2)
    rx ← read_uint32 d (pos + name_len + 2 + 4)
    returns (record { name = name; rtt_ms = rtt_ms; tx_bytes = tx; rx_bytes = rx } ∷ [])

unfoldable pub decode_paths : List ℕ → Run (List PathRtt)
decode_paths d =
    if leb 1 (length d) then (do name_len ← index d 0; decode_path d name_len) else returns []

-- What lies beyond the fixed part: the device name and, behind a zero byte, the per-path data.
unfoldable pub decode_extension : List ℕ → Run (List ℕ × List PathRtt)
decode_extension ext = elim (find_separator ext) [
  | none ↦ returns (ext, [])
  | some sep ↦ do
    device_name ← slice ext 0 sep
    d ← slice ext (sep + 1) (length ext)
    path_rtts ← decode_paths d
    returns (device_name, path_rtts)
]

abbrev pub fixed_part : List ℕ → List ℕ × List PathRtt → HeartbeatPayload
fixed_part buf (device_name, path_rtts) = record {
  virtual_ip = take 4 buf;
  prefix_len = get_or buf 4 0;
  send_mode = get_or buf 5 0;
  reply_port = bit_or (get_or buf 6 0 <<< 8) (get_or buf 7 0);
  team_key_hash = take 8 (drop 8 buf);
  device_name = device_name;
  path_rtts = path_rtts;
}

unfoldable pub decode_heartbeat : List ℕ → Run (Result DecodeError HeartbeatPayload)
decode_heartbeat buf =
    if ltb (length buf) heartbeat_payload_size
    then returns (err buffer_too_short)
    else if ltb heartbeat_payload_size (length buf)
    then (do
      extension ← decode_extension (drop heartbeat_payload_size buf)
      returns (ok (fixed_part buf extension)))
    else returns (ok (fixed_part buf ([], [])))

-- The buffer, and the number of bytes written.
unfoldable pub encode_heartbeat_with_name : List ℕ → HeartbeatPayload → List ℕ → List ℕ × ℕ
unfolding encode_heartbeat
encode_heartbeat_with_name buf hb device_name = (
  put (encode_heartbeat buf hb) heartbeat_payload_size device_name,
  heartbeat_payload_size + min (length buf - heartbeat_payload_size) (length device_name),
)

unfoldable pub encode_heartbeat_ack : List ℕ → HeartbeatAckPayload → List ℕ
unfolding to4_or_zero
encode_heartbeat_ack buf ack =
    let with_ip = put buf 0 (to4_or_zero ack.assigned_ip) in
    let with_status = set (set with_ip 4 ack.prefix_len) 5 ack.status in
    set (set with_status 6 (u8 (ack.mtu >>> 8))) 7 (u8 ack.mtu)

unfoldable pub decode_heartbeat_ack : List ℕ → Result DecodeError HeartbeatAckPayload
decode_heartbeat_ack buf =
    if ltb (length buf) heartbeat_ack_payload_size
    then err buffer_too_short
    else ok (record {
      assigned_ip = take 4 buf;
      prefix_len = get_or buf 4 0;
      status = get_or buf 5 0;
      mtu = bit_or (get_or buf 6 0 <<< 8) (get_or buf 7 0);
    })

-- The suffix that a sender appends to the heartbeat of one path.
unfoldable pub path_suffix : PathRtt → List ℕ
path_suffix p =
    0x00
    ∷ (u8 (length p.name) ∷ (p.name ++ (be16 p.rtt_ms ++ (be32 p.tx_bytes ++ be32 p.rx_bytes))))

unfoldable pub compute_team_key_hash : (List ℕ → List ℕ) → List ℕ → List ℕ
compute_team_key_hash sha256 team_key = take 8 (sha256 team_key)
