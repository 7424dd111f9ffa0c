-- ===== src/Protocol/Dedup/Bitmap.antt =====
-- The bitmap of dedup.go as a set of residues: setting, clearing and testing a bit.
use Prim.Native.Nat.{bit_and, bit_or}
use native.Mathlib.Nat.{one-le-pow, mod-lt}
use mpfpv.Prelude.{
  replicate, get_or-replicate, ℕ, zero, suc, ◌-◌, ◌*◌, ◌/◌, ◌%◌, ◌^◌, ◌<◌, ◌≤◌, ◌≡◌, ◌⊎◌, refl, ap,
  inl, inr, true, false, List, arith, ◌==◌, if◌then◌else◌, get_or, set, length, length-set,
  get_or-set_self, get_or-set_ne, Bool-cases,
}
use mpfpv.Bits.{
  digit, digit-zero, digit-le-one, digit-bit_and, digit-bit_or, digit-two_pow, digit-complement,
  bit_and-two_pow,
}
use mpfpv.Protocol.Dedup.{set_bit, clear_bit, get_bit, zero_words}

-- The bit of a residue, as a number.
bit_at : List ℕ → ℕ → ℕ
bit_at bitmap i = digit (get_or bitmap (i / 64) 0) (i % 64)

same_index : (i j : ℕ) → i / 64 ≡ j / 64 → (i % 64 == j % 64) ≡ (i == j)
same_index i j h = ground arith

shifted_one : (i : ℕ) → 1 * 2 ^ i ≡ 2 ^ i
shifted_one i = omega arith

word_or : (w i j : ℕ) → digit (bit_or w (1 * 2 ^ i)) j ≡ (if i == j then 1 else digit w j)
word_or w i j =
    rw shifted_one (ground (arith, digit-bit_or w (2 ^ i) j, digit-two_pow i j, digit-le-one w j))

word_and :
    (w i j : ℕ)
    → i < 64
    → j < 64
    → digit (bit_and w (2 ^ 64 - 1 - 1 * 2 ^ i)) j ≡ (if i == j then 0 else digit w j)
word_and w i j p q = rw shifted_one (
    ground (
      arith,
      digit-bit_and w (2 ^ 64 - 1 - 2 ^ i) j,
      digit-complement 64 i j p q,
      digit-le-one w j,
    ))

-- A write to the word of `i`, read at `j`.
bit_at-set :
    (bitmap : List ℕ) (i j v : ℕ)
    → i / 64 < length bitmap
    → bit_at (set bitmap (i / 64) v) j
      ≡ (if i / 64 == j / 64 then digit v (j % 64) else bit_at bitmap j)
unfolding bit_at
bit_at-set bitmap i j v fits = elim (Bool-cases (i / 64 == j / 64)) [
  | inl same ↦
      let e : i / 64 ≡ j / 64 = ground arith in
      rw same (rw (← e) (rw (get_or-set_self bitmap (i / 64) v 0 fits)))
  | inr other ↦ rw other (rw (get_or-set_ne bitmap (i / 64) (j / 64) v 0 (ground arith)))
]

bit_at-set_bit :
    (bitmap : List ℕ) (i j : ℕ)
    → i / 64 < length bitmap
    → bit_at (set bitmap (i / 64) (bit_or (get_or bitmap (i / 64) 0) (1 * 2 ^ (i % 64)))) j
      ≡ (if i == j then 1 else bit_at bitmap j)
bit_at-set_bit bitmap i j fits = rw (bit_at-set bitmap i j _ fits) (
    unfold bit_at in
    ground (arith, word_or (get_or bitmap (i / 64) 0) (i % 64) (j % 64), same_index i j))

bit_at-clear_bit :
    (bitmap : List ℕ) (i j : ℕ)
    → i / 64 < length bitmap
    → bit_at
        (set bitmap (i / 64) (bit_and (get_or bitmap (i / 64) 0) (2 ^ 64 - 1 - 1 * 2 ^ (i % 64))))
        j
      ≡ (if i == j then 0 else bit_at bitmap j)
bit_at-clear_bit bitmap i j fits = rw (bit_at-set bitmap i j _ fits) (
    unfold bit_at in
    ground (
      arith,
      word_and (get_or bitmap (i / 64) 0) (i % 64) (j % 64) (omega arith) (omega arith),
      same_index i j,
    ))

get_or-zero_words : (bitmap : List ℕ) (i : ℕ) → get_or (zero_words bitmap) i 0 ≡ 0
unfolding zero_words
get_or-zero_words List.[] i = refl
get_or-zero_words (List.◌∷◌ w ws) zero = refl
get_or-zero_words (List.◌∷◌ w ws) (suc i) = get_or-zero_words ws i

bit_at-zero_words : (bitmap : List ℕ) (i : ℕ) → bit_at (zero_words bitmap) i ≡ 0
unfolding bit_at
bit_at-zero_words bitmap i = rw get_or-zero_words (digit-zero (i % 64))

bit_at-replicate : (n i : ℕ) → bit_at (replicate n 0) i ≡ 0
unfolding bit_at
bit_at-replicate n i = rw (get_or-replicate {A = ℕ} n (i / 64) 0) (digit-zero (i % 64))

length-zero_words : (bitmap : List ℕ) → length (zero_words bitmap) ≡ length bitmap
unfolding zero_words
length-zero_words List.[] = refl
length-zero_words (List.◌∷◌ w ws) = ap suc (length-zero_words ws)

le_one_cases : (n : ℕ) → n ≤ 1 → (n ≡ 0) ⊎ (n ≡ 1)
le_one_cases n h = grind arith

get_bit-bit_at :
    (bitmap : List ℕ) (seq window_size : ℕ)
    → get_bit bitmap seq window_size ≡ (bit_at bitmap (seq % window_size) == 1)
unfolding get_bit bit_at
get_bit-bit_at bitmap seq window_size =
    let i = seq % window_size % 64 in
    let w = get_or bitmap (seq % window_size / 64) 0 in
    rw shifted_one (elim (le_one_cases (digit w i) (digit-le-one w i)) [
      | inl off ↦ ground (arith, bit_and-two_pow w i, off)
      | inr on ↦ ground (arith, bit_and-two_pow w i, one-le-pow i 2, on)
    ])

-- The bitmap has a word for every residue of the window.
pub record IsSized (window_size : ℕ) (bitmap : List ℕ) : Type 0 where
  pub positive : 0 < window_size
  pub room : window_size ≤ 64 * length bitmap

module _ {window_size : ℕ} {bitmap : List ℕ} (sized : IsSized window_size bitmap) where
  pub index_in_range : (seq : ℕ) → seq % window_size / 64 < length bitmap
  index_in_range seq = omega (arith, mod-lt seq sized.positive)

  pub get_bit-set_bit :
      (s t : ℕ)
      → get_bit (set_bit bitmap s window_size) t window_size
        ≡ (if s % window_size == t % window_size then true else get_bit bitmap t window_size)
  unfolding set_bit
  get_bit-set_bit s t = ground (
    arith,
    get_bit-bit_at (set_bit bitmap s window_size) t window_size,
    get_bit-bit_at bitmap t window_size,
    bit_at-set_bit bitmap (s % window_size) (t % window_size) (index_in_range s),
  )

  pub get_bit-clear_bit :
      (s t : ℕ)
      → get_bit (clear_bit bitmap s window_size) t window_size
        ≡ (if s % window_size == t % window_size then false else get_bit bitmap t window_size)
  unfolding clear_bit
  get_bit-clear_bit s t = ground (
    arith,
    get_bit-bit_at (clear_bit bitmap s window_size) t window_size,
    get_bit-bit_at bitmap t window_size,
    bit_at-clear_bit bitmap (s % window_size) (t % window_size) (index_in_range s),
  )

  pub get_bit-zero_words : (t : ℕ) → get_bit (zero_words bitmap) t window_size ≡ false
  get_bit-zero_words t = ground (
    arith,
    get_bit-bit_at (zero_words bitmap) t window_size,
    bit_at-zero_words bitmap (t % window_size),
  )

  pub set_bit-IsSized : (s : ℕ) → IsSized window_size (set_bit bitmap s window_size)
  unfolding set_bit
  set_bit-IsSized s = record { positive = sized.positive; room = rw length-set sized.room }

  pub clear_bit-IsSized : (s : ℕ) → IsSized window_size (clear_bit bitmap s window_size)
  unfolding clear_bit
  clear_bit-IsSized s = record { positive = sized.positive; room = rw length-set sized.room }

  pub zero_words-IsSized : IsSized window_size (zero_words bitmap)
  zero_words-IsSized = record { positive = sized.positive; room = rw length-zero_words sized.room }

-- A new bitmap holds nothing.
pub get_bit_none : (n t w : ℕ) → get_bit (replicate n 0) t w ≡ false
get_bit_none n t w = ground (arith, get_bit-bit_at (replicate n 0) t w, bit_at-replicate n (t % w))
