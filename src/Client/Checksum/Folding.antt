-- ===== src/Client/Checksum/Folding.antt =====
-- The carry loop of recalcIPv4Checksum: it ends after two rounds, and it computes the remainder
-- modulo 65535.
use Prim.Native.Nat.{bit_and}
use mpfpv.Prelude.{
  ℕ, zero, suc, ◌+◌, ◌/◌, ◌%◌, ◌^◌, ◌<◌, ◌≤◌, ◌≡◌, refl, ap, ◌∙◌, arith, ltb, if◌then◌else◌,
  Bool-cases, inl, inr,
}
use mpfpv.Bits.{bit_and-ones}
use mpfpv.Client.Checksum.{fold_carry, fold_rounds}

low_word : (n : ℕ) → bit_and n 0xffff ≡ n % 2 ^ 16
low_word n = let (q, e, below) = bit_and-ones 16 n in omega (arith, e, below)

next_sum : (n : ℕ) → n / 2 ^ 16 + bit_and n 0xffff ≡ n / 2 ^ 16 + n % 2 ^ 16
next_sum n = ap (λ (t : ℕ). n / 2 ^ 16 + t) (low_word n)

fold_carry_done : (rounds sum : ℕ) → sum ≤ 0xffff → fold_carry rounds sum ≡ sum
unfolding fold_carry
fold_carry_done zero sum h = refl
fold_carry_done (suc rounds) sum h = ground arith

fold_carry_next :
    (rounds sum : ℕ)
    → 0xffff < sum
    → fold_carry (suc rounds) sum ≡ fold_carry rounds (sum / 2 ^ 16 + sum % 2 ^ 16)
unfolding fold_carry
fold_carry_next rounds sum h = rw (← next_sum sum) (ground arith)

-- The value that the loop ends with.
abbrev folded : ℕ → ℕ
folded sum =
    let once = sum / 2 ^ 16 + sum % 2 ^ 16 in
    let twice = once / 2 ^ 16 + once % 2 ^ 16 in
    if ltb 0xffff sum then (if ltb 0xffff once then twice else once) else sum

fold_carry_lem : (rounds sum : ℕ) → sum < 2 ^ 32 → fold_carry (suc (suc rounds)) sum ≡ folded sum
fold_carry_lem rounds sum h = elim (Bool-cases (ltb 0xffff sum)) [
  | inr small ↦ ground (arith, fold_carry_done (suc (suc rounds)) sum (ground arith))
  | inl large ↦
      let once : ℕ = sum / 2 ^ 16 + sum % 2 ^ 16 in
      elim (Bool-cases (ltb 0xffff once)) [
        | inr small ↦
            fold_carry_next (suc rounds) sum (ground arith)
            ∙ fold_carry_done (suc rounds) once (ground arith)
            ∙ ground arith
        | inl large' ↦
            fold_carry_next (suc rounds) sum (ground arith)
            ∙ fold_carry_next rounds once (ground arith)
            ∙ fold_carry_done rounds (once / 2 ^ 16 + once % 2 ^ 16) (omega arith)
            ∙ ground arith
      ]
]

-- For a sum of 32 bits the carry loop has ended after two rounds: the result is at most 0xffff,
-- and with more rounds it is the same.
pub fold_carry_ends :
    (rounds sum : ℕ)
    → sum < 2 ^ 32
    → (fold_carry fold_rounds sum ≤ 0xffff)
      × (fold_carry (rounds + fold_rounds) sum ≡ fold_carry fold_rounds sum)
fold_carry_ends rounds sum h =
    let more : rounds + fold_rounds ≡ suc (suc rounds) = omega arith in
    (
      rw (fold_carry_lem 0 sum h) (ground arith),
      rw (more, fold_carry_lem 0 sum h, fold_carry_lem rounds sum h) refl,
    )

-- The result has the remainder of the sum modulo 65535, is 0 only for the sum 0, and is at most the
-- sum.
pub fold_carry_remainder :
    (sum : ℕ)
    → sum < 2 ^ 32
    → (fold_carry fold_rounds sum % 65535 ≡ sum % 65535)
      × (fold_carry fold_rounds sum ≡ 0 → sum ≡ 0)
      × (fold_carry fold_rounds sum ≤ sum)
fold_carry_remainder sum h =
    rw (fold_carry_lem 0 sum h) (ground arith, λ none'. ground arith, ground arith)
