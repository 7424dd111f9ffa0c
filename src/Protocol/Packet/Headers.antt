-- ===== src/Protocol/Packet/Headers.antt =====
-- The 8-byte header of packet.go: decoding after encoding, and what decoding accepts.
use Prim.Native.Nat.{bit_and, bit_or}
use mpfpv.Prelude.{
  ℕ, ◌+◌, ◌*◌, ◌^◌, ◌<◌, ◌≤◌, ◌≡◌, refl, arith, List, [], ◌∷◌, length, if◌then◌else◌,
}
use mpfpv.Bits.{bit_and-high_nibble, bit_and-low_nibble, bit_and-lowest_bit, bit_or_disjoint}
use mpfpv.Prelude.Outcome.{ok, err}
use mpfpv.Protocol.Packet.{Header, encode_header, decode_header, buffer_too_short}

-- The fields fit their bits on the wire, and the version is the supported one.
pub record IsHeader (h : Header) : Type 0 where
  pub version : h.version ≡ 0x10
  pub type : h.type < 16
  pub client_id : h.client_id < 2 ^ 16
  pub seq : h.seq < 2 ^ 32

abbrev pub AreBytes : List ℕ → Type 0
AreBytes [] = Unit
AreBytes (b ∷ bs) = (b < 256) × AreBytes bs

flags_lem : (t : ℕ) → t < 16 → bit_or (bit_and 0x10 0xf0) (bit_and t 0x0f) ≡ 16 + t
flags_lem t h =
    let low : bit_and t 0x0f ≡ t = omega (arith, bit_and-low_nibble t (omega arith)) in
    rw low (bit_or_disjoint 4 1 t h)

-- Decoding the first bytes of an encoded header.
decode_fields :
    (flags p c1 c0 s3 s2 s1 s0 : ℕ) (rest : List ℕ) (h : Header)
    → flags ≡ 16 + h.type
    → IsHeader h
    → p ≡ (if h.priority then 0x01 else 0)
    → c1 * 2 ^ 8 + c0 ≡ h.client_id
    → s3 * 2 ^ 24 + s2 * 2 ^ 16 + s1 * 2 ^ 8 + s0 ≡ h.seq
    → decode_header (flags ∷ p ∷ c1 ∷ c0 ∷ s3 ∷ s2 ∷ s1 ∷ s0 ∷ rest) ≡ ok h
unfolding decode_header
decode_fields flags p c1 c0 s3 s2 s1 s0 rest h f valid prio client seq = ground (
  arith,
  bit_and-high_nibble flags (omega (arith, valid.type)),
  bit_and-low_nibble flags (omega (arith, valid.type)),
  bit_and-lowest_bit p (ground arith),
  valid.version,
  valid.type,
)

-- A header of the supported version whose fields fit their bits decodes to itself after it was
-- written to a buffer of at least 8 bytes.
pub decode_header-encode_header :
    (buf : List ℕ) (h : Header)
    → 8 ≤ length buf
    → IsHeader h
    → decode_header (encode_header buf h) ≡ ok h
unfolding encode_header
decode_header-encode_header (b0 ∷ b1 ∷ b2 ∷ b3 ∷ b4 ∷ b5 ∷ b6 ∷ b7 ∷ rest) h p valid =
    decode_fields _ _ _ _ _ _ _ _ rest h (rw valid.version (flags_lem h.type valid.type)) valid refl
      (omega (arith, valid.client_id)) (omega (arith, valid.seq))
decode_header-encode_header _ h p valid = absurd (omega arith)

first_bytes :
    (b0 b1 b2 b3 b4 b5 b6 b7 : ℕ) (rest : List ℕ) (h : Header)
    → AreBytes (b0 ∷ b1 ∷ b2 ∷ b3 ∷ b4 ∷ b5 ∷ b6 ∷ b7 ∷ [])
    → decode_header (b0 ∷ b1 ∷ b2 ∷ b3 ∷ b4 ∷ b5 ∷ b6 ∷ b7 ∷ rest) ≡ ok h
    → IsHeader h × (h.version + h.type ≡ b0)
unfolding decode_header
first_bytes b0 b1 b2 b3 b4 b5 b6 b7 rest h bytes e =
    ground (arith, bit_and-high_nibble b0 (omega arith), bit_and-low_nibble b0 (omega arith))

too_short : (buf : List ℕ) → length buf < 8 → decode_header buf ≡ err buffer_too_short
unfolding decode_header
too_short buf h = ground arith
