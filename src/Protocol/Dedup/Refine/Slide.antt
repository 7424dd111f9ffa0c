-- ===== src/Protocol/Dedup/Refine/Slide.antt =====
-- The loop that clears the bits between the old and the new `max_seq`.
use Prim.Native.Nat.{◌∣◌}
use mpfpv.Prelude.{
  ℕ, zero, suc, ◌+◌, ◌%◌, ◌^◌, ◌<◌, ◌≤◌, ◌≡◌, ◌≢◌, refl, arith, List, false, ◌==◌, Bool-cases, inl,
  inr,
}
use mpfpv.Prelude.Words.{u32}
use mpfpv.Protocol.Dedup.{clear_bits, get_bit}
use mpfpv.Protocol.Dedup.Bitmap.{IsSized, get_bit-clear_bit, clear_bit-IsSized}
use mpfpv.Protocol.Dedup.Refine.Distance.{residue_mod32}

module _ (w max_seq : ℕ) (divides : w ∣ 2 ^ 32) where
  cleared_residue : (i : ℕ) → u32 (max_seq + u32 i) % w ≡ (max_seq + i) % w
  cleared_residue i =
      let e : u32 (max_seq + u32 i) ≡ u32 (max_seq + i) = omega arith in
      rw e (residue_mod32 w (max_seq + i) divides)

  pub clear_bits-IsSized :
      (i n : ℕ) (bitmap : List ℕ) → IsSized w bitmap → IsSized w (clear_bits w max_seq i n bitmap)
  unfolding clear_bits
  clear_bits-IsSized i zero bitmap sized = sized
  clear_bits-IsSized i (suc n) bitmap sized =
      clear_bits-IsSized (i + 1) n _ (clear_bit-IsSized sized (u32 (max_seq + u32 i)))

  -- A bit that is clear stays clear.
  stays_clear :
      (i n t : ℕ) (bitmap : List ℕ)
      → IsSized w bitmap
      → get_bit bitmap t w ≡ false
      → get_bit (clear_bits w max_seq i n bitmap) t w ≡ false
  unfolding clear_bits
  stays_clear i zero t bitmap sized h = h
  stays_clear i (suc n) t bitmap sized h =
      stays_clear (i + 1) n t _ (clear_bit-IsSized sized (u32 (max_seq + u32 i)))
        (ground (arith, get_bit-clear_bit sized (u32 (max_seq + u32 i)) t))

  pub get_bit-clear_bits_in :
      (i n j t : ℕ) (bitmap : List ℕ)
      → IsSized w bitmap
      → i ≤ j
      → j < i + n
      → t % w ≡ (max_seq + j) % w
      → get_bit (clear_bits w max_seq i n bitmap) t w ≡ false
  unfolding clear_bits
  get_bit-clear_bits_in i zero j t bitmap sized p q e = absurd (omega arith)
  get_bit-clear_bits_in i (suc n) j t bitmap sized p q e = elim (Bool-cases (i == j)) [
    | inl here ↦
        stays_clear (i + 1) n t _ (clear_bit-IsSized sized (u32 (max_seq + u32 i)))
          (ground (arith, get_bit-clear_bit sized (u32 (max_seq + u32 i)) t, cleared_residue i))
    | inr later ↦
        get_bit-clear_bits_in (i + 1) n j t _ (clear_bit-IsSized sized (u32 (max_seq + u32 i)))
          (ground arith) (omega arith) e
  ]

  pub get_bit-clear_bits_out :
      (i n t : ℕ) (bitmap : List ℕ)
      → IsSized w bitmap
      → ((j : ℕ) → i ≤ j → j < i + n → t % w ≢ (max_seq + j) % w)
      → get_bit (clear_bits w max_seq i n bitmap) t w ≡ get_bit bitmap t w
  unfolding clear_bits
  get_bit-clear_bits_out i zero t bitmap sized out = refl
  get_bit-clear_bits_out i (suc n) t bitmap sized out = ground (
    arith,
    get_bit-clear_bits_out (i + 1) n t _ (clear_bit-IsSized sized (u32 (max_seq + u32 i)))
        (λ j p q. out j (omega arith) (omega arith)),
    get_bit-clear_bit sized (u32 (max_seq + u32 i)) t,
    cleared_residue i,
    out i (omega arith) (omega arith),
  )
