-- ===== src/Client/Checksum/Verified.antt =====
-- What recalcIPv4Checksum writes is the checksum that a receiver of the packet verifies.
use Prim.Native.Nat.{bit_or}
use mathlib.Core.List.{append_assoc}
use mpfpv.Prelude.{
  ℕ, zero, suc, ◌+◌, ◌-◌, ◌*◌, ◌/◌, ◌%◌, ◌^◌, ◌<◌, ◌≤◌, ◌≡◌, refl, sym, ap, subst, ◌∙◌, arith, List,
  [], ◌∷◌, ◌++◌, length, get_or, take, drop, false, length-append,
}
use mpfpv.Prelude.Words.{u32}
use mpfpv.Prelude.Outcome.{returns}
use mpfpv.Prelude.Slices.{index, index-append}
use mpfpv.Bits.{bit_or_disjoint, bit_and-low_nibble}
use mpfpv.Protocol.Packet.Headers.{AreBytes}
use mpfpv.Client.Checksum.{
  sum_words, fold_carry, fold_rounds, header_length, complement, write_checksum, is_bad_length,
  recalc_header, recalc_ipv4_checksum,
}
use mpfpv.Client.Checksum.Folding.{fold_carry_ends, fold_carry_remainder}

-- The sum of the first n 16-bit words.
abbrev word_sum : ℕ → List ℕ → ℕ
word_sum (suc n) (hi ∷ lo ∷ rest) = hi * 2 ^ 8 + lo + word_sum n rest
word_sum _ _ = 0

-- The test of RFC 1071: the words of the header, the checksum among them, add up to 0xffff in one's
-- complement.
pub record IsVerified (b : List ℕ) : Type 0 where
  pub remainder : word_sum (header_length (get_or b 0 0) / 2) b % 65535 ≡ 0
  pub positive : 0 < word_sum (header_length (get_or b 0 0) / 2) b

word_sum_bound : (n : ℕ) (b : List ℕ) → AreBytes b → word_sum n b ≤ n * 65535
word_sum_bound zero b bytes = omega arith
word_sum_bound (suc n) [] bytes = omega arith
word_sum_bound (suc n) (hi ∷ []) bytes = omega arith
word_sum_bound (suc n) (hi ∷ lo ∷ rest) (p, (q, bytes)) =
    omega (arith, p, q, word_sum_bound n rest bytes)

-- The loop over a slice adds up its words.
sum_words_lem :
    (n sum : ℕ) (xs b : List ℕ)
    → AreBytes b
    → n * 2 ≤ length b
    → sum + n * 65535 < 2 ^ 32
    → sum_words (xs ++ b) (length xs) n sum ≡ returns (sum + word_sum n b)
unfolding sum_words index
sum_words_lem zero sum xs b bytes h bound = ap returns (omega arith)
sum_words_lem (suc n) sum xs (hi ∷ lo ∷ rest) (p, (q, bytes)) h bound =
    let b : List ℕ = hi ∷ lo ∷ rest in
    let next : u32 (sum + bit_or (hi * 2 ^ 8) lo) ≡ sum + (hi * 2 ^ 8 + lo) =
      omega (arith, p, q, bit_or_disjoint 8 hi lo q) in
    let longer : length xs + 2 ≡ length (xs ++ hi ∷ lo ∷ []) =
      omega (arith, length-append xs (hi ∷ lo ∷ [])) in
    let first : index (xs ++ b) (length xs) ≡ returns hi =
      index-append xs b (length xs) 0 (omega arith) in
    let second : index (xs ++ b) (length xs + 1) ≡ returns lo =
      index-append xs b (length xs + 1) 1 refl in
    let assoc : xs ++ b ≡ (xs ++ hi ∷ lo ∷ []) ++ rest =
      sym (append_assoc xs (hi ∷ lo ∷ []) rest) in
    rw (first, second, next, longer)
      (subst
        (λ (t : List ℕ).
          sum_words t (length (xs ++ hi ∷ lo ∷ [])) n (sum + (hi * 2 ^ 8 + lo))
          ≡ returns (sum + word_sum (suc n) b))
        (sym assoc)
        (sum_words_lem n (sum + (hi * 2 ^ 8 + lo)) (xs ++ hi ∷ lo ∷ []) rest bytes (omega arith)
            (omega (arith, p, q))
          ∙ ap returns (omega arith)))
sum_words_lem (suc n) sum xs (hi ∷ []) bytes h bound = absurd (omega arith)
sum_words_lem (suc n) sum xs [] bytes h bound = absurd (omega arith)

-- The loop's words with the checksum's two bytes replaced, of which the others add up to `rest`.
sum_words_checksum :
    (rest sum cs : ℕ)
    → rest ≤ 30 * 65535
    → sum ≡ rest
    → cs ≡ complement (fold_carry fold_rounds sum)
    → ((rest + (cs / 2 ^ 8 % 2 ^ 8 * 2 ^ 8 + cs % 2 ^ 8)) % 65535 ≡ 0)
      × (0 < rest + (cs / 2 ^ 8 % 2 ^ 8 * 2 ^ 8 + cs % 2 ^ 8))
sum_words_checksum rest sum cs h e c =
    let (small, _) = fold_carry_ends 0 sum (omega arith) in
    let (remainder, zero', at_most) = fold_carry_remainder sum (omega arith) in
    (omega (arith, c, e, small, remainder), ground (arith, c, e, small, remainder, zero', at_most))

cleared_sum :
    (n : ℕ) (b : List ℕ)
    → n ≤ 30
    → AreBytes b
    → n * 2 ≤ length b
    → sum_words b 0 n 0 ≡ returns (word_sum n b)
cleared_sum n b small bytes h =
    sum_words_lem n 0 [] b bytes h (omega (arith, small)) ∙ ap returns (omega arith)

-- The header has twelve bytes, the checksum's among them, and m more words.
recalc_header_lem :
    (b0 b1 b2 b3 b4 b5 b6 b7 b8 b9 b10 b11 : ℕ) (rest : List ℕ) (ihl m : ℕ)
    → let b : List ℕ = b0 ∷ b1 ∷ b2 ∷ b3 ∷ b4 ∷ b5 ∷ b6 ∷ b7 ∷ b8 ∷ b9 ∷ b10 ∷ b11 ∷ rest in
      AreBytes b
      → ihl ≡ (6 + m) * 2
      → m ≤ 24
      → m * 2 ≤ length rest
      → (cs : ℕ) × (recalc_header b ihl ≡ returns (write_checksum b cs))
        × (word_sum (ihl / 2) (write_checksum b cs) % 65535 ≡ 0)
        × (0 < word_sum (ihl / 2) (write_checksum b cs))
unfolding recalc_header
recalc_header_lem b0 b1 b2 b3 b4 b5 b6 b7 b8 b9 b10 b11 rest ihl m
      (p0, (p1, (p2, (p3, (p4, (p5, (p6, (p7, (p8, (p9, (p10, (p11, bytes)))))))))))) even small
      long =
    let cleared : List ℕ = b0 ∷ b1 ∷ b2 ∷ b3 ∷ b4 ∷ b5 ∷ b6 ∷ b7 ∷ b8 ∷ b9 ∷ 0 ∷ 0 ∷ rest in
    let ten : ℕ =
      b0 * 2 ^ 8
      + b1
      + (b2 * 2 ^ 8 + b3)
      + (b4 * 2 ^ 8 + b5)
      + (b6 * 2 ^ 8 + b7)
      + (b8 * 2 ^ 8 + b9)
      + word_sum m rest in
    let sum : ℕ = word_sum (suc (suc (suc (suc (suc (suc m)))))) cleared in
    let cs = complement (fold_carry fold_rounds sum) in
    let half : ihl / 2 ≡ suc (suc (suc (suc (suc (suc m))))) = omega (arith, even) in
    let loop : sum_words cleared 0 (suc (suc (suc (suc (suc (suc m)))))) 0 ≡ returns sum =
      cleared_sum (suc (suc (suc (suc (suc (suc m)))))) cleared (omega arith)
        (
          p0,
          (p1, (p2, (p3, (p4, (p5, (p6, (p7, (p8, (p9, (omega arith, (omega arith, bytes))))))))))),
        )
        (omega (arith, long)) in
    let bound : ten ≤ 30 * 65535 =
      omega (arith, p0, p1, p2, p3, p4, p5, p6, p7, p8, p9, word_sum_bound m rest bytes) in
    let (verified, some') = sum_words_checksum ten sum cs bound (omega arith) refl in
    (cs, rw (half, loop) refl, rw half (omega (arith, verified)), rw half (omega (arith, some')))

-- If the header that the first byte announces has 20 bytes at least and lies in the packet, the
-- function returns: bytes 10 and 11 are replaced, all others stay, and the words of the header
-- then add up to 0xffff in one's complement, which is the receiver's test.
pub recalc_ipv4_checksum-IsVerified :
    (b : List ℕ)
    → AreBytes b
    → 20 ≤ header_length (get_or b 0 0)
    → header_length (get_or b 0 0) ≤ length b
    → (b' : List ℕ) × (recalc_ipv4_checksum b ≡ returns b')
      × IsVerified b'
      × (take 10 b' ≡ take 10 b)
      × (drop 12 b' ≡ drop 12 b)
unfolding recalc_ipv4_checksum index
recalc_ipv4_checksum-IsVerified (b0 ∷ b1 ∷ b2 ∷ b3 ∷ b4 ∷ b5 ∷ b6 ∷ b7 ∷ b8 ∷ b9 ∷ b10 ∷ b11 ∷ rest)
      bytes long inside =
    let b : List ℕ = b0 ∷ b1 ∷ b2 ∷ b3 ∷ b4 ∷ b5 ∷ b6 ∷ b7 ∷ b8 ∷ b9 ∷ b10 ∷ b11 ∷ rest in
    let m : ℕ = b0 % 16 * 2 - 6 in
    let ihl : header_length b0 ≡ (6 + m) * 2 =
      omega (arith, bytes.0, long, bit_and-low_nibble b0 bytes.0) in
    let good : is_bad_length (header_length b0) b ≡ false = ground (arith, long, inside) in
    let (cs, run, remainder, positive) =
      recalc_header_lem b0 b1 b2 b3 b4 b5 b6 b7 b8 b9 b10 b11 rest (header_length b0) m bytes ihl
        (omega arith) (omega (arith, ihl, inside)) in
    (
      write_checksum b cs,
      rw good run,
      record { remainder = remainder; positive = positive },
      refl,
      refl,
    )
recalc_ipv4_checksum-IsVerified _ bytes long inside = absurd (omega (arith, long, inside))
