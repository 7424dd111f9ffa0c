-- ===== src/Protocol/Dedup/Refine/Distance.antt =====
-- `seq_diff` is the signed distance on the circle of 32-bit numbers, and positions of the window
-- have different residues.
use native.Mathlib.Nat.{mod-mod_of_dvd}
use Prim.Native.Nat.{◌∣◌}
use mpfpv.Prelude.{ℕ, zero, suc, ◌+◌, ◌-◌, ◌%◌, ◌^◌, ◌<◌, ◌≤◌, ◌≡◌, ◌≢◌, refl, arith, List}
use mpfpv.Prelude.Int.{ℤ, pos, negsuc}
use mpfpv.Protocol.Dedup.{seq_diff, get_bit}

pub data Placed (seq top : ℕ) : ℤ → Type 0 where
  same : seq ≡ top → Placed seq top (pos zero)
  ahead : (k : ℕ) → seq ≡ (top + suc k) % 2 ^ 32 → suc k ≤ 2 ^ 31 → Placed seq top (pos (suc k))
  behind :
      (k : ℕ) → seq ≡ (top + 2 ^ 32 - suc k) % 2 ^ 32 → suc k ≤ 2 ^ 31 → Placed seq top (negsuc k)

Placed-of :
    (seq top : ℕ) → seq < 2 ^ 32 → top < 2 ^ 32 → (z : ℤ) → seq_diff seq top ≡ z → Placed seq top z
unfolding seq_diff
Placed-of seq top p q (pos zero) e = same (ground arith)
Placed-of seq top p q (pos (suc k)) e = ahead k (ground arith) (ground arith)
Placed-of seq top p q (negsuc k) e = behind k (ground arith) (ground arith)

pub seq_diff-Placed :
    (seq top : ℕ) → seq < 2 ^ 32 → top < 2 ^ 32 → Placed seq top (seq_diff seq top)
seq_diff-Placed seq top p q = Placed-of seq top p q (seq_diff seq top) refl

-- Numbers less than `w` apart have different residues.
pub residues_differ : (w a k : ℕ) → 0 < k → k < w → a % w ≢ (a + k) % w
residues_differ w a k p q e = grind arith

pub get_bit_cong :
    (bitmap : List ℕ) (w s t : ℕ) → s % w ≡ t % w → get_bit bitmap s w ≡ get_bit bitmap t w
unfolding get_bit
get_bit_cong bitmap w s t e = rw e

pub residue_mod32 : (w a : ℕ) → w ∣ 2 ^ 32 → a % 2 ^ 32 % w ≡ a % w
residue_mod32 w a d = mod-mod_of_dvd w a d
