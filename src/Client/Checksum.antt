-- ===== src/Client/Checksum.antt =====
-- recalcIPv4Checksum of internal/client/client.go.
pub mod Folding
pub mod Total
pub mod Verified
use Prim.Native.Nat.{bit_and, bit_or}
use mpfpv.Prelude.{
  ℕ, zero, suc, ◌+◌, ◌-◌, ◌*◌, ◌/◌, ◌%◌, ◌^◌, List, Bool, ◌||◌, ltb, if◌then◌else◌, length, set,
}
use mpfpv.Prelude.Words.{u8, u32, ◌<<<◌, ◌>>>◌}
use mpfpv.Prelude.Outcome.{Run, returns, panics, ◌>>=◌, ◌>>◌}
use mpfpv.Prelude.Slices.{index}

-- sum += uint32(b[i])<<8 | uint32(b[i+1]), in steps of two bytes from `i` with `n` rounds left.
unfoldable pub sum_words : List ℕ → ℕ → ℕ → ℕ → Run ℕ
sum_words b i zero sum = returns sum
sum_words b i (suc n) sum = do
  hi ← index b i
  lo ← index b (i + 1)
  sum_words b (i + 2) n (u32 (sum + bit_or (hi <<< 8) lo))

-- for sum > 0xffff { sum = (sum >> 16) + (sum & 0xffff) }, with a bound on the rounds.
unfoldable pub fold_carry : ℕ → ℕ → ℕ
fold_carry zero sum = sum
fold_carry (suc rounds) sum =
    let rest = fold_carry rounds ((sum >>> 16) + bit_and sum 0xffff) in
    if ltb 0xffff sum then rest else sum

abbrev pub fold_rounds : ℕ
fold_rounds = 2

-- int(b[0]&0x0f) * 4
abbrev pub header_length : ℕ → ℕ
header_length first = bit_and first 0x0f * 4

-- ^uint16(sum)
abbrev pub complement : ℕ → ℕ
complement sum = 0xffff - sum % 2 ^ 16

abbrev pub write_checksum : List ℕ → ℕ → List ℕ
write_checksum b cs = set (set b 10 (u8 (cs >>> 8))) 11 (u8 cs)

unfoldable pub recalc_header : List ℕ → ℕ → Run (List ℕ)
recalc_header b ihl = do
  let cleared = set (set b 10 0) 11 0
  sum ← sum_words cleared 0 (ihl / 2) 0
  returns (write_checksum cleared (complement (fold_carry fold_rounds sum)))

-- ihl < 20 || ihl > len(ipHeader)
abbrev pub is_bad_length : ℕ → List ℕ → Bool
is_bad_length ihl b = ltb ihl 20 || ltb (length b) ihl

unfoldable pub recalc_ipv4_checksum : List ℕ → Run (List ℕ)
recalc_ipv4_checksum b = do
  first ← index b 0
  let ihl = header_length first
  if is_bad_length ihl b then returns b else recalc_header b ihl
