-- ===== src/Bits.antt =====
-- The bit operations on machine words, digit by digit: `|`, `&` and `&^` with a single bit set,
-- clear and test that bit and leave the others.
mod Step
use Step.{bit_or_step, bit_and_step}
use Prim.Native.Nat.{min, max, bit_and, bit_or}
use native.Mathlib.Nat.{pow-suc, one-le-pow}
use mpfpv.Prelude.{
  ℕ, zero, suc, ◌+◌, ◌-◌, ◌*◌, ◌/◌, ◌%◌, ◌^◌, ◌<◌, ◌≤◌, ◌≡◌, refl, ap, arith, ◌==◌, ==_iff, Bool,
  true, ◌&&◌, if◌then◌else◌,
}

bit_and_zero_below : (n w : ℕ) → w ≤ n → bit_and w 0 ≡ 0
bit_and_zero_below n zero h = refl
bit_and_zero_below zero (suc w) h = absurd (omega arith)
bit_and_zero_below (suc n) (suc w) h =
    omega (arith, bit_and_step (suc w) 0, bit_and_zero_below n (suc w / 2) (omega arith))

bit_and_zero : (w : ℕ) → bit_and w 0 ≡ 0
bit_and_zero w = bit_and_zero_below w w (omega arith)

-- The binary digit of weight 2 ^ j.
pub digit : ℕ → ℕ → ℕ
digit w zero = w % 2
digit w (suc j) = digit (w / 2) j

pub digit-le-one : (w j : ℕ) → digit w j ≤ 1
unfolding digit
digit-le-one w zero = omega arith
digit-le-one w (suc j) = digit-le-one (w / 2) j

pub digit-bit_and : (a b j : ℕ) → digit (bit_and a b) j ≡ min (digit a j) (digit b j)
unfolding digit
digit-bit_and a b zero = omega (arith, bit_and_step a b)
digit-bit_and a b (suc j) =
    let half : bit_and a b / 2 ≡ bit_and (a / 2) (b / 2) = omega (arith, bit_and_step a b) in
    rw half (digit-bit_and (a / 2) (b / 2) j)

pub digit-bit_or : (a b j : ℕ) → digit (bit_or a b) j ≡ max (digit a j) (digit b j)
unfolding digit
digit-bit_or a b zero = omega (arith, bit_or_step a b)
digit-bit_or a b (suc j) =
    let half : bit_or a b / 2 ≡ bit_or (a / 2) (b / 2) = omega (arith, bit_or_step a b) in
    rw half (digit-bit_or (a / 2) (b / 2) j)

pub digit-zero : (j : ℕ) → digit 0 j ≡ 0
unfolding digit
digit-zero zero = refl
digit-zero (suc j) = digit-zero j

half-two_pow : (i : ℕ) → 2 ^ suc i / 2 ≡ 2 ^ i
half-two_pow i = omega (arith, pow-suc 2 i)

pub digit-two_pow : (i j : ℕ) → digit (2 ^ i) j ≡ (if i == j then 1 else 0)
unfolding digit
digit-two_pow zero zero = refl
digit-two_pow zero (suc j) = ground (arith, digit-zero j)
digit-two_pow (suc i) zero = ground (arith, pow-suc 2 i)
digit-two_pow (suc i) (suc j) = rw half-two_pow (ground (arith, digit-two_pow i j))

digit-ones : (k j : ℕ) → j < k → digit (2 ^ k - 1) j ≡ 1
unfolding digit
digit-ones zero j h = absurd (omega arith)
digit-ones (suc k) zero h = omega (arith, pow-suc 2 k, one-le-pow k 2)
digit-ones (suc k) (suc j) h =
    let half : (2 ^ suc k - 1) / 2 ≡ 2 ^ k - 1 = omega (arith, pow-suc 2 k, one-le-pow k 2) in
    rw half (digit-ones k j (omega arith))

pow_lt : (i k : ℕ) → i < k → 2 ^ i < 2 ^ k
pow_lt i zero h = absurd (omega arith)
pow_lt zero (suc k) h = omega (arith, pow-suc 2 k, one-le-pow k 2)
pow_lt (suc i) (suc k) h = omega (arith, pow-suc 2 k, pow-suc 2 i, pow_lt i k (omega arith))

-- The complement of a single bit within k bits.
pub digit-complement :
    (k i j : ℕ) → i < k → j < k → digit (2 ^ k - 1 - 2 ^ i) j ≡ (if i == j then 0 else 1)
unfolding digit
digit-complement zero i j p q = absurd (omega arith)
digit-complement (suc k) zero zero p q = omega (arith, pow-suc 2 k, one-le-pow k 2)
digit-complement (suc k) zero (suc j) p q =
    let half : (2 ^ suc k - 1 - 2 ^ 0) / 2 ≡ 2 ^ k - 1 =
      omega (arith, pow-suc 2 k, one-le-pow k 2) in
    rw half (ground (arith, digit-ones k j (omega arith)))
digit-complement (suc k) (suc i) zero p q =
    ground (arith, pow-suc 2 k, pow-suc 2 i, pow_lt i k (omega arith))
digit-complement (suc k) (suc i) (suc j) p q =
    let half : (2 ^ suc k - 1 - 2 ^ suc i) / 2 ≡ 2 ^ k - 1 - 2 ^ i =
      omega (arith, pow-suc 2 k, pow-suc 2 i, pow_lt i k (omega arith)) in
    rw half (ground (arith, digit-complement k i j (omega arith) (omega arith)))

-- `w & (1 << j)` is not zero exactly where the digit is one.
pub bit_and-two_pow : (w j : ℕ) → bit_and w (2 ^ j) ≡ digit w j * 2 ^ j
unfolding digit
bit_and-two_pow w zero = omega (arith, bit_and_step w 1, bit_and_zero (w / 2))
bit_and-two_pow w (suc j) = omega (
  arith,
  bit_and_step w (2 ^ suc j),
  pow-suc 2 j,
  ap (λ (t : ℕ). digit (w / 2) j * t) (pow-suc 2 j),
  ap (bit_and (w / 2)) (half-two_pow j),
  bit_and-two_pow (w / 2) j,
)

two_pow-product : (q k : ℕ) → q * 2 ^ suc k ≡ 2 * (q * 2 ^ k)
two_pow-product q k = omega (arith, ap (λ (t : ℕ). q * t) (pow-suc 2 k))

bit_or_zero_below : (n w : ℕ) → w ≤ n → bit_or w 0 ≡ w
bit_or_zero_below n zero h = refl
bit_or_zero_below zero (suc w) h = absurd (omega arith)
bit_or_zero_below (suc n) (suc w) h =
    omega (arith, bit_or_step (suc w) 0, bit_or_zero_below n (suc w / 2) (omega arith))

-- `(hi << k) | lo` is a sum where `lo` fits k bits.
pub bit_or_disjoint : (k hi lo : ℕ) → lo < 2 ^ k → bit_or (hi * 2 ^ k) lo ≡ hi * 2 ^ k + lo
bit_or_disjoint zero hi lo h =
    let none : lo ≡ 0 = omega arith in
    rw none (omega (arith, bit_or_zero_below (hi * 2 ^ 0) (hi * 2 ^ 0) (omega arith)))
bit_or_disjoint (suc k) hi lo h =
    let half : hi * 2 ^ suc k / 2 ≡ hi * 2 ^ k = omega (arith, two_pow-product hi k) in
    omega (
      arith,
      bit_or_step (hi * 2 ^ suc k) lo,
      two_pow-product hi k,
      ap (λ (t : ℕ). bit_or t (lo / 2)) half,
      bit_or_disjoint k hi (lo / 2) (omega (arith, pow-suc 2 k)),
    )

-- Over a small range, every value is checked by evaluation.
holds_below : (ℕ → Bool) → ℕ → Bool
holds_below test zero = true
holds_below test (suc limit) = holds_below test limit && test limit

at-holds_below :
    (test : ℕ → Bool) (limit k : ℕ) → k < limit → holds_below test limit ≡ true → test k ≡ true
unfolding holds_below
at-holds_below test (suc limit) k below all = ground (arith, at-holds_below test limit k)
at-holds_below test zero k below all = absurd (omega arith)

-- The nibbles of a byte.
high_nibble_table : holds_below (λ x. bit_and x 0xf0 == x / 16 * 16) 256 ≡ true
unfolding holds_below
high_nibble_table = refl

low_nibble_table : holds_below (λ x. bit_and x 0x0f == x % 16) 256 ≡ true
unfolding holds_below
low_nibble_table = refl

lowest_bit_table : holds_below (λ x. bit_and x 0x01 == x % 2) 256 ≡ true
unfolding holds_below
lowest_bit_table = refl

pub bit_and-high_nibble : (x : ℕ) → x < 256 → bit_and x 0xf0 ≡ x / 16 * 16
bit_and-high_nibble x h = (==_iff _ _).0 (at-holds_below _ 256 x h high_nibble_table)

pub bit_and-low_nibble : (x : ℕ) → x < 256 → bit_and x 0x0f ≡ x % 16
bit_and-low_nibble x h = (==_iff _ _).0 (at-holds_below _ 256 x h low_nibble_table)

pub bit_and-lowest_bit : (x : ℕ) → x < 256 → bit_and x 0x01 ≡ x % 2
bit_and-lowest_bit x h = (==_iff _ _).0 (at-holds_below _ 256 x h lowest_bit_table)

-- `n & (2 ^ k - 1)` is what is left of `n` when a multiple of 2 ^ k is taken away.
pub bit_and-ones :
    (k n : ℕ) → (q : ℕ) × (n ≡ q * 2 ^ k + bit_and n (2 ^ k - 1)) × (bit_and n (2 ^ k - 1) < 2 ^ k)
bit_and-ones zero n = (n, omega (arith, bit_and_zero n), omega (arith, bit_and_zero n))
bit_and-ones (suc k) n =
    let (q, e, below) = bit_and-ones k (n / 2) in
    let half : (2 ^ suc k - 1) / 2 ≡ 2 ^ k - 1 = omega (arith, pow-suc 2 k, one-le-pow k 2) in
    let step : bit_and n (2 ^ suc k - 1) ≡ n % 2 + 2 * bit_and (n / 2) (2 ^ k - 1) = omega (
      arith,
      bit_and_step n (2 ^ suc k - 1),
      ap (λ (t : ℕ). bit_and (n / 2) t) half,
      one-le-pow k 2,
      pow-suc 2 k,
    ) in
    (q, omega (arith, step, e, two_pow-product q k), omega (arith, step, below, pow-suc 2 k))
