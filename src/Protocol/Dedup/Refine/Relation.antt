-- ===== src/Protocol/Dedup/Refine/Relation.antt =====
-- When a client's state in dedup.go represents a window, and when it represents none yet.
use Prim.Native.Nat.{◌∣◌}
use mpfpv.Prelude.{
  ℕ, ◌+◌, ◌-◌, ◌%◌, ◌^◌, ◌<◌, ◌≤◌, ◌≡◌, ◌≢◌, refl, sym, ◌∙◌, arith, List, true, false, Option, none,
  some, ◌==◌,
}
use mpfpv.Protocol.Dedup.{ClientState, get_bit, start_at}
use mpfpv.Protocol.Dedup.Bitmap.{IsSized, get_bit-set_bit, set_bit-IsSized}
use mpfpv.Protocol.Dedup.Window.{Window, only}
use mpfpv.Protocol.Dedup.Refine.Distance.{residues_differ, residue_mod32}

pub record Refines (window_size : ℕ) (cs : ClientState) (w : Window) : Type 0 where
  pub inited : cs.inited ≡ true
  pub sized : IsSized window_size cs.bitmap
  pub top : cs.max_seq ≡ w.top
  pub bound : w.top < 2 ^ 32
  pub newest : w.seen 0 ≡ true
  pub bits :
      (d : ℕ) → d < window_size → get_bit cs.bitmap (w.top + 2 ^ 32 - d) window_size ≡ w.seen d

pub record IsFresh (window_size : ℕ) (cs : ClientState) : Type 0 where
  pub idle : cs.inited ≡ false
  pub sized : IsSized window_size cs.bitmap
  pub clear : (t : ℕ) → get_bit cs.bitmap t window_size ≡ false

abbrev pub Refined : ℕ → ClientState → Option Window → Type 0
Refined window_size cs none = IsFresh window_size cs
Refined window_size cs (some w) = Refines window_size cs w

-- The sizes that the bitmap serves: those that the circle of sequence numbers is a multiple of.
pub record IsWindowSize (w : ℕ) : Type 0 where
  pub positive : 0 < w
  pub divides : w ∣ 2 ^ 32
  pub small : w ≤ 2 ^ 31

module _ {w : ℕ} (size : IsWindowSize w) where
  pub cong32 : (a b : ℕ) → a % 2 ^ 32 ≡ b % 2 ^ 32 → a % w ≡ b % w
  cong32 a b e =
      omega (arith, residue_mod32 w a size.divides, residue_mod32 w b size.divides, ap_mod e)
    where
      ap_mod : a % 2 ^ 32 ≡ b % 2 ^ 32 → a % 2 ^ 32 % w ≡ b % 2 ^ 32 % w
      ap_mod h = rw h

  -- Among the positions of the window, that of distance k is the only one with the residue of `seq`.
  pub residue_at :
      (top seq k d : ℕ)
      → seq % 2 ^ 32 ≡ (top + 2 ^ 32 - k) % 2 ^ 32
      → k < w
      → d < w
      → (seq % w == (top + 2 ^ 32 - d) % w) ≡ (d == k)
  residue_at top seq k d e p q =
      ground (arith, cong32 seq (top + 2 ^ 32 - k) e, near, far, size.small)
    where
      near : d < k → (top + 2 ^ 32 - k) % w ≢ (top + 2 ^ 32 - d) % w
      near h x =
          residues_differ w (top + 2 ^ 32 - k) (k - d) (omega arith) (omega arith) (x ∙ rw_sum)
        where
          rw_sum : (top + 2 ^ 32 - d) % w ≡ (top + 2 ^ 32 - k + (k - d)) % w
          rw_sum = cong32 _ _ (omega (arith, size.small))

      far : k < d → (top + 2 ^ 32 - k) % w ≢ (top + 2 ^ 32 - d) % w
      far h x =
          residues_differ w (top + 2 ^ 32 - d) (d - k) (omega arith) (omega arith) (sym x ∙ rw_sum)
        where
          rw_sum : (top + 2 ^ 32 - k) % w ≡ (top + 2 ^ 32 - d + (d - k)) % w
          rw_sum = cong32 _ _ (omega (arith, size.small))

  pub start_at-Refines :
      (seq : ℕ) (bitmap : List ℕ)
      → seq < 2 ^ 32
      → IsSized w bitmap
      → ((t : ℕ) → get_bit bitmap t w ≡ false)
      → Refines w (start_at w seq bitmap) (only seq)
  unfolding start_at
  start_at-Refines seq bitmap p sized clear = record {
    inited = refl;
    sized = set_bit-IsSized sized seq;
    top = refl;
    bound = p;
    newest = refl;
    bits = λ d q. ground (
      arith,
      get_bit-set_bit sized seq (seq + 2 ^ 32 - d),
      residue_at seq seq 0 d (omega arith) size.positive q,
      clear (seq + 2 ^ 32 - d),
    );
  }
