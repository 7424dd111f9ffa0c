-- ===== src/Protocol/Packet/Exchange.antt =====
-- Whole messages of packet.go: what one side writes, the other side reads.
use Prim.Native.Nat.{bit_or, min}
use mathlib.Core.List.{append_assoc}
use mpfpv.Prelude.{
  ℕ, ◌+◌, ◌-◌, ◌*◌, ◌/◌, ◌%◌, ◌^◌, ◌<◌, ◌≤◌, ◌≡◌, ap, sym, ◌∙◌, arith, List, [], ◌∷◌, ◌++◌, true,
  length, set, take, drop, ltb, none, length-append, length-drop, take-append,
}
use mpfpv.Prelude.Words.{u8, ◌>>>◌}
use mpfpv.Bits.{bit_or_disjoint}
use mpfpv.Prelude.Outcome.{ok, returns}
use mpfpv.Prelude.Slices.{put, put-append}
use mpfpv.Protocol.Packet.{
  PathRtt, HeartbeatPayload, HeartbeatAckPayload, decode_heartbeat, decode_extension, fixed_part,
  find_separator, path_suffix, encode_heartbeat, encode_heartbeat_with_name, encode_heartbeat_ack,
  decode_heartbeat_ack, to4_or_zero,
}
use mpfpv.Protocol.Packet.RoundTrip.{
  IsPath, IsHeartbeat, fixed_bytes, write_fixed, read_fixed, decode_extension_parts,
  decode_extension_name, decode_paths-suffix, fixed_part-fixed,
}

to4_or_zero_four : (ip : List ℕ) → length ip ≡ 4 → to4_or_zero ip ≡ ip
unfolding to4_or_zero
to4_or_zero_four ip h = ground arith

port_value : (n : ℕ) → n < 2 ^ 16 → bit_or (n / 2 ^ 8 % 2 ^ 8 * 2 ^ 8) (n % 2 ^ 8) ≡ n
port_value n h = bit_or_disjoint 8 (n / 2 ^ 8 % 2 ^ 8) (n % 2 ^ 8) (omega arith) ∙ omega arith

path_suffix_long : (p : PathRtt) → 0 < length (path_suffix p)
unfolding path_suffix
path_suffix_long p = omega arith

suffix_extension :
    (name : List ℕ) (p : PathRtt)
    → find_separator name ≡ none
    → IsPath p
    → decode_extension (name ++ path_suffix p) ≡ returns (name, p ∷ [])
unfolding path_suffix
suffix_extension name p clean valid =
    decode_extension_parts name _ (p ∷ []) clean (decode_paths-suffix p valid)

ack_bytes :
    (buf ip : List ℕ) (prefix_len status hi lo mtu : ℕ)
    → 8 ≤ length buf
    → length ip ≡ 4
    → bit_or (hi * 2 ^ 8) lo ≡ mtu
    → decode_heartbeat_ack (set (set (set (set (put buf 0 ip) 4 prefix_len) 5 status) 6 hi) 7 lo)
      ≡ ok (record { assigned_ip = ip; prefix_len = prefix_len; status = status; mtu = mtu })
unfolding decode_heartbeat_ack
ack_bytes (b0 ∷ b1 ∷ b2 ∷ b3 ∷ b4 ∷ b5 ∷ b6 ∷ b7 ∷ rest) (i0 ∷ i1 ∷ i2 ∷ i3 ∷ []) prefix_len status
      hi lo mtu h p e =
    ground (arith, e)
ack_bytes _ _ prefix_len status hi lo mtu h p e = absurd (omega arith)

module _ (hb : HeartbeatPayload) (valid : IsHeartbeat hb) where
  length-fixed : length (fixed_bytes hb) ≡ 16
  length-fixed = omega (
    arith,
    length-append hb.virtual_ip (
        hb.prefix_len
        ∷ hb.send_mode
        ∷ u8 (hb.reply_port >>> 8)
        ∷ u8 hb.reply_port
        ∷ hb.team_key_hash),
    valid.ip,
    valid.hash,
  )

  encode_heartbeat_bytes :
      (buf : List ℕ) → 16 ≤ length buf → encode_heartbeat buf hb ≡ fixed_bytes hb ++ drop 16 buf
  unfolding encode_heartbeat
  encode_heartbeat_bytes buf h = rw (to4_or_zero_four hb.virtual_ip valid.ip) (
      write_fixed buf hb.virtual_ip hb.team_key_hash hb.prefix_len hb.send_mode _ _ valid.ip
        valid.hash h)

  -- The bytes that are sent: the fixed part and the name.
  pub encode_heartbeat_with_name_bytes :
      (buf name : List ℕ)
      → 16 + length name ≤ length buf
      → take (encode_heartbeat_with_name buf hb name).1 (encode_heartbeat_with_name buf hb name).0
        ≡ fixed_bytes hb ++ name
  unfolding encode_heartbeat_with_name
  encode_heartbeat_with_name_bytes buf name h =
      let total : 16 + min (length buf - 16) (length name) ≡ length (fixed_bytes hb ++ name) =
        omega (arith, length-append (fixed_bytes hb) name, length-fixed) in
      rw (encode_heartbeat_bytes buf (omega arith)) (
        rw
          (put-append name (fixed_bytes hb) (drop 16 buf) 16 (sym length-fixed)
            (omega (arith, length-drop 16 buf)))
          (rw total (
            rw (← append_assoc (fixed_bytes hb) name (drop (length name) (drop 16 buf)))
              (take-append (fixed_bytes hb ++ name) _))))

  fields :
      (ext name : List ℕ) (paths : List PathRtt)
      → fixed_part (fixed_bytes hb ++ ext) (name, paths)
        ≡ record hb { device_name = name; path_rtts = paths }
  fields ext name paths =
      fixed_part-fixed hb.virtual_ip hb.team_key_hash ext name paths hb.prefix_len hb.send_mode _ _
        hb.reply_port valid.ip valid.hash (port_value hb.reply_port valid.port)

  read_message :
      (ext name : List ℕ) (paths : List PathRtt)
      → 0 < length ext
      → decode_extension ext ≡ returns (name, paths)
      → decode_heartbeat (fixed_bytes hb ++ ext)
        ≡ returns (ok (record hb { device_name = name; path_rtts = paths }))
  read_message ext name paths h e =
      let more : ltb 0 (length ext) ≡ true = ground arith in
      read_fixed hb.virtual_ip hb.team_key_hash ext name paths hb.prefix_len hb.send_mode _ _
        valid.ip valid.hash
      ∙ rw more (rw e (ap (λ h. returns (ok h)) (fields ext name paths)))

  read_name :
      (name : List ℕ)
      → find_separator name ≡ none
      → decode_heartbeat (fixed_bytes hb ++ name)
        ≡ returns (ok (record hb { device_name = name; path_rtts = [] }))
  read_name [] clean =
      read_fixed hb.virtual_ip hb.team_key_hash [] [] [] hb.prefix_len hb.send_mode _ _ valid.ip
        valid.hash
      ∙ ap (λ h. returns (ok h)) (fields [] [] [])
  read_name (c ∷ name) clean =
      read_message (c ∷ name) (c ∷ name) [] (omega arith) (decode_extension_name (c ∷ name) clean)

  -- A heartbeat with a device name without zero bytes, followed by the suffix of one path, decodes
  -- to the same heartbeat with that name and that path. The address has 4 bytes, the hash 8, the
  -- numbers fit their fields, the path's name has fewer than 256 bytes, and the buffer has room.
  pub decode_heartbeat-encode_path :
      (buf name : List ℕ) (p : PathRtt)
      → 16 + length name ≤ length buf
      → find_separator name ≡ none
      → IsPath p
      → let (written, n) = encode_heartbeat_with_name buf hb name in
        decode_heartbeat (take n written ++ path_suffix p)
        ≡ returns (ok (record hb { device_name = name; path_rtts = p ∷ [] }))
  decode_heartbeat-encode_path buf name p h clean valid_path =
      rw (encode_heartbeat_with_name_bytes buf name h) (
        rw (append_assoc (fixed_bytes hb) name (path_suffix p)) (
          read_message (name ++ path_suffix p) name (p ∷ [])
            (omega (arith, length-append name (path_suffix p), path_suffix_long p))
            (suffix_extension name p clean valid_path)))

  -- A heartbeat with a device name without zero bytes, perhaps empty, decodes to the same
  -- heartbeat with that name and no path, under the same conditions on its fields and the buffer.
  pub decode_heartbeat-encode_name :
      (buf name : List ℕ)
      → 16 + length name ≤ length buf
      → find_separator name ≡ none
      → let (written, n) = encode_heartbeat_with_name buf hb name in
        decode_heartbeat (take n written)
        ≡ returns (ok (record hb { device_name = name; path_rtts = [] }))
  decode_heartbeat-encode_name buf name h clean =
      rw (encode_heartbeat_with_name_bytes buf name h) (read_name name clean)

-- An acknowledgement with an address of 4 bytes and an MTU of 16 bits decodes to itself after it
-- was written to a buffer of at least 8 bytes.
pub decode_heartbeat_ack-encode :
    (buf : List ℕ) (ack : HeartbeatAckPayload)
    → 8 ≤ length buf
    → length ack.assigned_ip ≡ 4
    → ack.mtu < 2 ^ 16
    → decode_heartbeat_ack (encode_heartbeat_ack buf ack) ≡ ok ack
unfolding encode_heartbeat_ack
decode_heartbeat_ack-encode buf ack h ip mtu = rw (to4_or_zero_four ack.assigned_ip ip) (
    ack_bytes buf ack.assigned_ip ack.prefix_len ack.status _ _ ack.mtu h ip
      (port_value ack.mtu mtu))
