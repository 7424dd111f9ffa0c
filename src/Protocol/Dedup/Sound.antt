-- ===== src/Protocol/Dedup/Sound.antt =====
-- When every index that dedup.go computes is inside a bitmap. NewDeduplicator takes other window sizes
-- too: a multiple of 2 ^ 32 is 0 as a uint32, so that `seq % windowSize` panics, and the size of the
-- bitmap wraps to nothing above 2 ^ 32 - 64, so that its first index panics.
use mpfpv.Prelude.{
  ℕ, zero, suc, ◌+◌, ◌/◌, ◌%◌, ◌^◌, ◌<◌, ◌≡◌, arith, List, Bool, some, ◌==◌, leb, if_elim, nat_eq,
  Bool-cases, Option-cases, inl, inr, length-replicate,
}
use mpfpv.Prelude.Int.{ℤ, pos, negsuc}
use mpfpv.Prelude.Map.{lookup, lookup-insert}
use mpfpv.Protocol.Dedup.{
  ClientState, Deduplicator, start_at, get_bit, clear_bits, clear_ahead, slide_to, check_behind,
  check_diff, seq_diff, check, new_client, client_state, is_duplicate,
}
use mpfpv.Protocol.Dedup.Bitmap.{IsSized, set_bit-IsSized, clear_bit-IsSized, zero_words-IsSized}

-- The window has a size for which the bitmaps are made long enough, and so are those of the clients.
pub record IsSound (d : Deduplicator) : Type 0 where
  pub positive : 0 < d.window_size
  pub small : d.window_size + 63 < 2 ^ 32
  pub sized :
      (c : ℕ) (cs : ClientState) → lookup c d.clients ≡ some cs → IsSized d.window_size cs.bitmap

clear_bits-IsSized :
    (w max_seq i n : ℕ) (bitmap : List ℕ)
    → IsSized w bitmap
    → IsSized w (clear_bits w max_seq i n bitmap)
unfolding clear_bits
clear_bits-IsSized w max_seq i zero bitmap sized = sized
clear_bits-IsSized w max_seq i (suc n) bitmap sized =
    clear_bits-IsSized w max_seq (i + 1) n _ (clear_bit-IsSized sized _)

pub clear_ahead-IsSized :
    (w : ℕ) (cs : ClientState) (shift : ℕ)
    → IsSized w cs.bitmap
    → IsSized w (clear_ahead w cs shift)
unfolding clear_ahead
clear_ahead-IsSized w cs shift sized =
    if_elim (IsSized w) (leb w shift) _ _ (λ far. zero_words-IsSized sized)
      (λ near. clear_bits-IsSized w cs.max_seq 1 shift cs.bitmap sized)

check_behind-IsSized :
    (w : ℕ) (cs : ClientState) (seq behind : ℕ)
    → IsSized w cs.bitmap
    → IsSized w (check_behind w cs seq behind).1.bitmap
unfolding check_behind start_at
check_behind-IsSized w cs seq behind sized =
    if_elim (λ (r : Bool × ClientState). IsSized w r.1.bitmap) (leb w behind) _ _
      (λ far. set_bit-IsSized (zero_words-IsSized sized) seq)
      (λ near.
        if_elim (λ (r : Bool × ClientState). IsSized w r.1.bitmap) (get_bit cs.bitmap seq w) _ _
          (λ seen. sized) (λ new. set_bit-IsSized sized seq))

check_diff-IsSized :
    (w : ℕ) (cs : ClientState) (seq : ℕ) (diff : ℤ)
    → IsSized w cs.bitmap
    → IsSized w (check_diff w cs seq diff).1.bitmap
unfolding check_diff slide_to
check_diff-IsSized w cs seq (pos zero) sized = sized
check_diff-IsSized w cs seq (pos (suc k)) sized =
    set_bit-IsSized (clear_ahead-IsSized w cs (suc k) sized) seq
check_diff-IsSized w cs seq (negsuc k) sized = check_behind-IsSized w cs seq (suc k) sized

check-IsSized :
    (w : ℕ) (cs : ClientState) (seq : ℕ) → IsSized w cs.bitmap → IsSized w (check w cs seq).1.bitmap
unfolding check start_at
check-IsSized w cs seq sized =
    if_elim (λ (r : Bool × ClientState). IsSized w r.1.bitmap) cs.inited _ _
      (λ going. check_diff-IsSized w cs seq (seq_diff seq cs.max_seq) sized)
      (λ first. set_bit-IsSized sized seq)

new_client-IsSized : (w : ℕ) → 0 < w → w + 63 < 2 ^ 32 → IsSized w (new_client w).bitmap
unfolding new_client
new_client-IsSized w positive small = record {
  positive = positive;
  room = omega (arith, length-replicate {A = ℕ} ((w + 63) % 2 ^ 32 / 64) 0, small);
}

pub client_state-IsSized :
    (d : Deduplicator) (c : ℕ) → IsSound d → IsSized d.window_size (client_state d c).bitmap
unfolding client_state
client_state-IsSized d c sound = elim (Option-cases (lookup c d.clients)) [
  | inl none' ↦
      rw (none', client_state) (new_client-IsSized d.window_size sound.positive sound.small)
  | inr (cs, known) ↦ rw (known, client_state) (sound.sized c cs known)
]

-- A packet leaves all bitmaps long enough.
pub is_duplicate-IsSound :
    (d : Deduplicator) (c seq : ℕ) → IsSound d → IsSound (is_duplicate d c seq).1
unfolding is_duplicate
is_duplicate-IsSound d c seq sound =
    let next = (check d.window_size (client_state d c) seq).1 in
    let fits =
      check-IsSized d.window_size (client_state d c) seq (client_state-IsSized d c sound) in
    record {
      positive = sound.positive;
      small = sound.small;
      sized = λ j cs found. elim (Bool-cases (c == j)) [
        | inl hit ↦
            let same : next ≡ cs = ground (arith, found, lookup-insert c j next d.clients, hit) in
            rw (← same) fits
        | inr miss ↦
            sound.sized j cs (ground (arith, found, lookup-insert c j next d.clients, miss))
      ];
    }

-- A deduplicator without clients, whose window has such a size.
pub new-IsSound :
    (d : Deduplicator)
    → d.clients ≡ List.[]
    → 0 < d.window_size
    → d.window_size + 63 < 2 ^ 32
    → IsSound d
unfolding lookup
new-IsSound d empty positive small = record {
  positive = positive;
  small = small;
  sized = λ c cs found. absurd (ground (arith, found, empty));
}
