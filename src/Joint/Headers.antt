-- ===== src/Joint/Headers.antt =====
-- The header in front of a payload, as the client of internal/client/client.go writes it and the decoder
-- of internal/protocol/packet.go reads it.
use mpfpv.Prelude.{
  ℕ, ◌^◌, ◌<◌, ◌≤◌, ◌≡◌, refl, arith, List, ◌∷◌, ◌++◌, length, take, drop, length-append,
  length-take,
}
use mpfpv.Prelude.Outcome.{ok}
use mpfpv.Protocol.Packet.{Header, encode_header, decode_header, header_size}
use mpfpv.Protocol.Packet.Headers.{IsHeader, decode_header-encode_header}
use mpfpv.Client.State.{Client}
use mpfpv.Client.Sending.{header_of}

-- The numbers of the client that go into a header fit it, and the ID is one that the server accepts.
pub record IsNumbered (c : Client) : Type 0 where
  pub positive : 0 < c.client_id
  pub client_id : c.client_id < 2 ^ 16
  pub seq : c.seq < 2 ^ 32

pub header_of-IsHeader :
    (c : Client) (type : ℕ) → IsNumbered c → type < 16 → IsHeader (header_of c type)
header_of-IsHeader c type n h = record {
  version = refl;
  type = h;
  client_id = n.client_id;
  seq = n.seq;
}

-- The first eight bytes are the header, and the rest is what stood there.
pub split-encode_header :
    (b rest : List ℕ) (h : Header)
    → 8 ≤ length b
    → (take header_size (encode_header b h) ++ rest ≡ encode_header (take header_size b ++ rest) h)
      × (drop header_size (encode_header b h) ≡ drop header_size b)
      × (drop header_size (take header_size (encode_header b h) ++ rest) ≡ rest)
unfolding encode_header
split-encode_header (b0 ∷ b1 ∷ b2 ∷ b3 ∷ b4 ∷ b5 ∷ b6 ∷ b7 ∷ b) rest h long = (refl, refl, refl)
split-encode_header _ rest h long = absurd (omega arith)

pub decode_header-take :
    (b rest : List ℕ) (h : Header)
    → 8 ≤ length b
    → IsHeader h
    → decode_header (take header_size (encode_header b h) ++ rest) ≡ ok h
decode_header-take b rest h long valid = rw ((split-encode_header b rest h long).0) (
    decode_header-encode_header (take header_size b ++ rest) h
      (omega (arith, length-append (take header_size b) rest, length-take header_size b)) valid)
