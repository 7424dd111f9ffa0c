-- ===== src/Client/Checksum/Total.antt =====
-- recalcIPv4Checksum of internal/client/client.go returns for every packet that is not empty.
use Prim.Native.Nat.{bit_or}
use mpfpv.Prelude.{
  ℕ, zero, suc, ◌+◌, ◌*◌, ◌/◌, ◌^◌, ◌<◌, ◌≤◌, ◌≡◌, refl, arith, List, [], ◌∷◌, length, set,
  length-set, Bool-cases, inl, inr,
}
use mpfpv.Prelude.Words.{u32}
use mpfpv.Prelude.Outcome.{Returns}
use mpfpv.Prelude.Slices.{index, put}
use mpfpv.Protocol.Packet.Heartbeats.{index-Returns}
use mpfpv.Client.Checksum.{
  sum_words, fold_carry, fold_rounds, header_length, complement, write_checksum, is_bad_length,
  recalc_header, recalc_ipv4_checksum,
}

pub length-put : (b : List ℕ) (i : ℕ) (xs : List ℕ) → length (put b i xs) ≡ length b
length-put b i [] = refl
length-put b i (x ∷ xs) = omega (arith, length-put (set b i x) (i + 1) xs, length-set b i x)

sum_words-Returns :
    (b : List ℕ) (i n sum : ℕ) → i + n * 2 ≤ length b → Returns (sum_words b i n sum)
unfolding sum_words
sum_words-Returns b i zero sum h = (sum, refl)
sum_words-Returns b i (suc n) sum h =
    let (hi, p) = index-Returns b i (omega arith) in
    let (lo, q) = index-Returns b (i + 1) (omega arith) in
    let (total, e) =
      sum_words-Returns b (i + 2) n (u32 (sum + bit_or (hi * 2 ^ 8) lo)) (omega arith) in
    (total, rw (p, q) e)

recalc_header-Returns : (b : List ℕ) (ihl : ℕ) → ihl ≤ length b → Returns (recalc_header b ihl)
unfolding recalc_header
recalc_header-Returns b ihl h =
    let cleared : List ℕ = set (set b 10 0) 11 0 in
    let same : length cleared ≡ length b =
      omega (arith, length-set (set b 10 0) 11 0, length-set b 10 0) in
    let (sum, e) = sum_words-Returns cleared 0 (ihl / 2) 0 (omega (arith, same)) in
    (write_checksum cleared (complement (fold_carry fold_rounds sum)), rw e refl)

pub recalc_ipv4_checksum-Returns : (b : List ℕ) → 0 < length b → Returns (recalc_ipv4_checksum b)
unfolding recalc_ipv4_checksum index
recalc_ipv4_checksum-Returns [] h = absurd (omega arith)
recalc_ipv4_checksum-Returns (first ∷ rest) h =
    let b : List ℕ = first ∷ rest in
    let ihl = header_length first in
    elim (Bool-cases (is_bad_length ihl b)) [
      | inl bad ↦ (b, rw bad refl)
      | inr good ↦
          let (b', e) = recalc_header-Returns b ihl (ground (arith, good)) in (b', rw good e)
    ]
