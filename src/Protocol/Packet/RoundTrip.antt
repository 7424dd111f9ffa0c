-- ===== src/Protocol/Packet/RoundTrip.antt =====
-- What the server decodes of packet.go's heartbeats is what the client encoded.
use Prim.Native.Nat.{bit_or}
use mpfpv.Prelude.{
  ℕ, suc, ◌+◌, ◌-◌, ◌*◌, ◌/◌, ◌%◌, ◌^◌, ◌<◌, ◌≤◌, ◌≡◌, refl, ap, ◌∙◌, arith, List, [], ◌∷◌, ◌++◌,
  true, false, length, drop, if◌then◌else◌, ltb, leb, some, none, length-append, take-append,
  take_all, drop-append_suc, set,
}
use mpfpv.Bits.{bit_or_disjoint}
use mpfpv.Prelude.Words.{u8, ◌>>>◌}
use mpfpv.Prelude.Outcome.{ok, returns, ◌>>=◌}
use mpfpv.Prelude.Slices.{index, slice, put, index-append}
use mpfpv.Protocol.Packet.{
  PathRtt, fixed_part, HeartbeatPayload, decode_heartbeat, decode_extension, decode_paths,
  decode_path, find_separator, read_uint16, read_uint32, path_suffix, be16, be32,
}

-- The fields fit the bytes that carry them.
pub record IsPath (p : PathRtt) : Type 0 where
  pub name : length p.name < 256
  pub rtt : p.rtt_ms < 2 ^ 16
  pub tx : p.tx_bytes < 2 ^ 32
  pub rx : p.rx_bytes < 2 ^ 32

pub record IsHeartbeat (hb : HeartbeatPayload) : Type 0 where
  pub ip : length hb.virtual_ip ≡ 4
  pub port : hb.reply_port < 2 ^ 16
  pub hash : length hb.team_key_hash ≡ 8

read_uint16-append :
    (xs ys : List ℕ) (pos k : ℕ)
    → pos ≡ length xs + k
    → read_uint16 (xs ++ ys) pos ≡ read_uint16 ys k
unfolding read_uint16
read_uint16-append xs ys pos k e =
    rw (index-append xs ys pos k e, index-append xs ys (pos + 1) (k + 1) (omega arith))

read_uint32-append :
    (xs ys : List ℕ) (pos k : ℕ)
    → pos ≡ length xs + k
    → read_uint32 (xs ++ ys) pos ≡ read_uint32 ys k
unfolding read_uint32
read_uint32-append xs ys pos k e = rw (
  index-append xs ys pos k e,
  index-append xs ys (pos + 1) (k + 1) (omega arith),
  index-append xs ys (pos + 2) (k + 2) (omega arith),
  index-append xs ys (pos + 3) (k + 3) (omega arith),
)

bytes_value :
    (b3 b2 b1 b0 : ℕ)
    → b2 < 256
    → b1 < 256
    → b0 < 256
    → bit_or (bit_or (bit_or (b3 * 2 ^ 24) (b2 * 2 ^ 16)) (b1 * 2 ^ 8)) b0
      ≡ b3 * 2 ^ 24 + b2 * 2 ^ 16 + b1 * 2 ^ 8 + b0
bytes_value b3 b2 b1 b0 p2 p1 p0 =
    let first = bit_or_disjoint 24 b3 (b2 * 2 ^ 16) (omega arith) in
    let shape2 : b3 * 2 ^ 24 + b2 * 2 ^ 16 ≡ (b3 * 2 ^ 8 + b2) * 2 ^ 16 = omega arith in
    let second = bit_or_disjoint 16 (b3 * 2 ^ 8 + b2) (b1 * 2 ^ 8) (omega arith) in
    let shape1 : (b3 * 2 ^ 8 + b2) * 2 ^ 16 + b1 * 2 ^ 8
        ≡ ((b3 * 2 ^ 8 + b2) * 2 ^ 8 + b1) * 2 ^ 8 =
      omega arith in
    let third = bit_or_disjoint 8 ((b3 * 2 ^ 8 + b2) * 2 ^ 8 + b1) b0 p0 in
    rw first (rw shape2 (rw second (rw shape1 (rw third (omega arith)))))

read_be16 : (n : ℕ) (ys : List ℕ) → n < 2 ^ 16 → read_uint16 (be16 n ++ ys) 0 ≡ returns n
unfolding read_uint16 index
read_be16 n ys h =
    ap returns (bit_or_disjoint 8 (n / 2 ^ 8 % 2 ^ 8) (n % 2 ^ 8) (omega arith) ∙ omega arith)

read_be32 : (n : ℕ) (ys : List ℕ) → n < 2 ^ 32 → read_uint32 (be32 n ++ ys) 0 ≡ returns n
unfolding read_uint32 index
read_be32 n ys h = ap returns (
    bytes_value (n / 2 ^ 24 % 2 ^ 8) (n / 2 ^ 16 % 2 ^ 8) (n / 2 ^ 8 % 2 ^ 8) (n % 2 ^ 8)
      (omega arith) (omega arith) (omega arith)
    ∙ omega arith)

slice_name :
    (n : ℕ) (name tail : List ℕ) → slice (n ∷ (name ++ tail)) 1 (1 + length name) ≡ returns name
unfolding slice
slice_name n name tail =
    let e : 1 + length name - 1 ≡ length name = omega arith in
    let inside : leb 1 (1 + length name) ≡ true = ground arith in
    let fits : leb (1 + length name) (suc (length (name ++ tail))) ≡ true =
      ground (arith, length-append name tail) in
    rw (inside, fits, e, take-append name tail)

-- Numbers of the path's tail, at their offsets behind the name.
abbrev tail_of : PathRtt → List ℕ
tail_of p = be16 p.rtt_ms ++ (be32 p.tx_bytes ++ be32 p.rx_bytes)

module _ (p : PathRtt) (valid : IsPath p) (n : ℕ) where
  abbrev path_data : List ℕ
  path_data = n ∷ (p.name ++ tail_of p)

  read_rtt : read_uint16 path_data (1 + length p.name) ≡ returns p.rtt_ms
  read_rtt =
      read_uint16-append (n ∷ p.name) (tail_of p) (1 + length p.name) 0 (omega arith)
      ∙ read_be16 p.rtt_ms (be32 p.tx_bytes ++ be32 p.rx_bytes) valid.rtt

  read_tx : read_uint32 path_data (1 + length p.name + 2) ≡ returns p.tx_bytes
  read_tx =
      read_uint32-append (n ∷ p.name) (tail_of p) (1 + length p.name + 2) 2 (omega arith)
      ∙ read_uint32-append (be16 p.rtt_ms) (be32 p.tx_bytes ++ be32 p.rx_bytes) 2 0 refl
      ∙ read_be32 p.tx_bytes (be32 p.rx_bytes) valid.tx

  read_rx : read_uint32 path_data (1 + length p.name + 2 + 4) ≡ returns p.rx_bytes
  read_rx =
      read_uint32-append (n ∷ p.name) (tail_of p) (1 + length p.name + 2 + 4) 6 (omega arith)
      ∙ read_uint32-append (be16 p.rtt_ms ++ be32 p.tx_bytes) (be32 p.rx_bytes ++ []) 6 0 refl
      ∙ read_be32 p.rx_bytes [] valid.rx

  decode_path-tail : decode_path path_data (length p.name) ≡ returns (p ∷ [])
  unfolding decode_path
  decode_path-tail =
      let room : ltb (length path_data) (1 + length p.name + 2 + 4 + 4) ≡ false =
        ground (arith, length-append p.name (tail_of p)) in
      rw (room, decode_path) (rw (slice_name n p.name (tail_of p), read_rtt, read_tx, read_rx))

-- The per-path data behind the separator is read back.
pub decode_paths-suffix :
    (p : PathRtt) → IsPath p → decode_paths (drop 1 (path_suffix p)) ≡ returns (p ∷ [])
unfolding decode_paths path_suffix index
decode_paths-suffix p valid =
    let n : length p.name % 2 ^ 8 ≡ length p.name = omega (arith, valid.name) in
    rw n (ground (arith, decode_path-tail p valid (length p.name)))

separator-append :
    (name rest : List ℕ)
    → find_separator name ≡ none
    → find_separator (name ++ 0 ∷ rest) ≡ some (length name)
unfolding find_separator
separator-append [] rest h = refl
separator-append (b ∷ bs) rest h = ground (arith, separator-append bs rest)

slice_front : (name rest : List ℕ) → slice (name ++ 0 ∷ rest) 0 (length name) ≡ returns name
unfolding slice
slice_front name rest =
    let e : length name - 0 ≡ length name = omega arith in
    let inside : leb 0 (length name) ≡ true = ground arith in
    let fits : leb (length name) (length (name ++ 0 ∷ rest)) ≡ true =
      ground (arith, length-append name (0 ∷ rest)) in
    rw (inside, fits, e, take-append name (0 ∷ rest))

slice_back :
    (name rest : List ℕ)
    → slice (name ++ 0 ∷ rest) (length name + 1) (length (name ++ 0 ∷ rest)) ≡ returns rest
unfolding slice
slice_back name rest =
    let total : length (name ++ 0 ∷ rest) ≡ length name + suc (length rest) =
      length-append name (0 ∷ rest) in
    let start : length name + 1 ≡ suc (length name) = omega arith in
    let left : length name + suc (length rest) - suc (length name) ≡ length rest = omega arith in
    let inside : leb (suc (length name)) (length name + suc (length rest)) ≡ true = ground arith in
    let fits : leb (length name + suc (length rest)) (length name + suc (length rest)) ≡ true =
      ground arith in
    rw (total, start, inside, fits, left, drop-append_suc name rest 0, take_all rest)

pub decode_extension_parts :
    (name rest : List ℕ) (paths : List PathRtt)
    → find_separator name ≡ none
    → decode_paths rest ≡ returns paths
    → decode_extension (name ++ 0 ∷ rest) ≡ returns (name, paths)
unfolding decode_extension
decode_extension_parts name rest paths clean e =
    rw (separator-append name rest clean, decode_extension)
      (rw (slice_front name rest, slice_back name rest, e))

pub decode_extension_name :
    (name : List ℕ) → find_separator name ≡ none → decode_extension name ≡ returns (name, [])
unfolding decode_extension
decode_extension_name name clean = rw (clean, decode_extension)

-- The sixteen bytes of the fixed part.
abbrev pub fixed_bytes : HeartbeatPayload → List ℕ
fixed_bytes hb =
    hb.virtual_ip
    ++ (hb.prefix_len
        ∷ hb.send_mode
        ∷ u8 (hb.reply_port >>> 8)
        ∷ u8 hb.reply_port
        ∷ hb.team_key_hash)

pub write_fixed :
    (buf ip hash : List ℕ) (prefix_len send_mode hi lo : ℕ)
    → length ip ≡ 4
    → length hash ≡ 8
    → 16 ≤ length buf
    → put (set (set (set (set (put buf 0 ip) 4 prefix_len) 5 send_mode) 6 hi) 7 lo) 8 hash
      ≡ (ip ++ (prefix_len ∷ send_mode ∷ hi ∷ lo ∷ hash)) ++ drop 16 buf
write_fixed (b0 ∷ b1 ∷ b2 ∷ b3 ∷ b4 ∷ b5 ∷ b6 ∷ b7 ∷ c0 ∷ c1 ∷ c2 ∷ c3 ∷ c4 ∷ c5 ∷ c6 ∷ c7 ∷ rest)
      (i0 ∷ i1 ∷ i2 ∷ i3 ∷ []) (h0 ∷ h1 ∷ h2 ∷ h3 ∷ h4 ∷ h5 ∷ h6 ∷ h7 ∷ []) prefix_len send_mode hi
      lo p q r =
    refl
write_fixed _ _ _ prefix_len send_mode hi lo p q r = absurd (omega arith)

pub read_fixed :
    (ip hash ext name : List ℕ) (paths : List PathRtt) (prefix_len send_mode hi lo : ℕ)
    → length ip ≡ 4
    → length hash ≡ 8
    → decode_heartbeat ((ip ++ (prefix_len ∷ send_mode ∷ hi ∷ lo ∷ hash)) ++ ext) ≡ (
        if ltb 0 (length ext)
        then (do
          extension ← decode_extension ext
          returns (
              ok (fixed_part ((ip ++ (prefix_len ∷ send_mode ∷ hi ∷ lo ∷ hash)) ++ ext) extension)))
        else returns
            (ok (fixed_part ((ip ++ (prefix_len ∷ send_mode ∷ hi ∷ lo ∷ hash)) ++ ext) ([], []))))
unfolding decode_heartbeat
read_fixed (i0 ∷ i1 ∷ i2 ∷ i3 ∷ []) (h0 ∷ h1 ∷ h2 ∷ h3 ∷ h4 ∷ h5 ∷ h6 ∷ h7 ∷ []) ext name paths
      prefix_len send_mode hi lo p q =
    ground arith
read_fixed _ _ ext name paths prefix_len send_mode hi lo p q = absurd (omega arith)

pub fixed_part-fixed :
    (ip hash ext name : List ℕ) (paths : List PathRtt) (prefix_len send_mode hi lo port : ℕ)
    → length ip ≡ 4
    → length hash ≡ 8
    → bit_or (hi * 2 ^ 8) lo ≡ port
    → fixed_part ((ip ++ (prefix_len ∷ send_mode ∷ hi ∷ lo ∷ hash)) ++ ext) (name, paths) ≡ record {
      virtual_ip = ip;
      prefix_len = prefix_len;
      send_mode = send_mode;
      reply_port = port;
      team_key_hash = hash;
      device_name = name;
      path_rtts = paths;
    }
fixed_part-fixed (i0 ∷ i1 ∷ i2 ∷ i3 ∷ []) (h0 ∷ h1 ∷ h2 ∷ h3 ∷ h4 ∷ h5 ∷ h6 ∷ h7 ∷ []) ext name
      paths prefix_len send_mode hi lo port p q e =
    ground (arith, e)
fixed_part-fixed _ _ ext name paths prefix_len send_mode hi lo port p q e = absurd (omega arith)
