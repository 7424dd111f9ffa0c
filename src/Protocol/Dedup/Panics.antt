-- ===== src/Protocol/Dedup/Panics.antt =====
-- internal/protocol/dedup.go with its panics: `seq % windowSize` for the window 0, and an index outside
-- the bitmap. For a sound deduplicator a call returns what `is_duplicate` says.
use Prim.Native.Nat.{bit_and, bit_or}
use mpfpv.Prelude.{
  ℕ, zero, suc, ◌+◌, ◌-◌, ◌/◌, ◌%◌, ◌^◌, ◌<◌, ◌≡◌, ◌⊎◌, refl, sym, ◌∙◌, ap, arith, Bool, true,
  false, not, List, [], ◌∷◌, leb, ◌==◌, if◌then◌else◌, get_or, set, length, nat_eq, Bool-cases, inl,
  inr, replicate, if_true, if_false,
}
use mpfpv.Prelude.Int.{ℤ, pos, negsuc}
use mpfpv.Prelude.Words.{u32, ◌<<<◌}
use mpfpv.Prelude.Map.{lookup, insert}
use mpfpv.Prelude.Outcome.{Run, returns, panics, ◌>>=◌}
use mpfpv.Prelude.Slices.{index}
use mpfpv.Protocol.Dedup.{
  ClientState, Deduplicator, start_at, set_bit, clear_bit, get_bit, clear_bits, clear_ahead,
  zero_words, slide_to, check_behind, check_diff, seq_diff, check, new_client, client_state,
  is_duplicate,
}
use mpfpv.Protocol.Dedup.Bitmap.{IsSized, index_in_range, clear_bit-IsSized, zero_words-IsSized}
use mpfpv.Protocol.Dedup.Sound.{IsSound, clear_ahead-IsSized, client_state-IsSized}

-- seq % windowSize
abbrev remainder : ℕ → ℕ → Run ℕ
remainder seq window_size = if window_size == 0 then panics else returns (seq % window_size)

unfoldable pub set_bit_or_panic : List ℕ → ℕ → ℕ → Run (List ℕ)
set_bit_or_panic bitmap seq window_size = do
  idx ← remainder seq window_size
  word ← index bitmap (idx / 64)
  returns (set bitmap (idx / 64) (bit_or word (1 <<< (idx % 64))))

unfoldable pub clear_bit_or_panic : List ℕ → ℕ → ℕ → Run (List ℕ)
clear_bit_or_panic bitmap seq window_size = do
  idx ← remainder seq window_size
  word ← index bitmap (idx / 64)
  returns (set bitmap (idx / 64) (bit_and word (2 ^ 64 - 1 - (1 <<< (idx % 64)))))

unfoldable pub get_bit_or_panic : List ℕ → ℕ → ℕ → Run Bool
get_bit_or_panic bitmap seq window_size = do
  idx ← remainder seq window_size
  word ← index bitmap (idx / 64)
  returns (not (bit_and word (1 <<< (idx % 64)) == 0))

unfoldable pub clear_bits_or_panic : ℕ → ℕ → ℕ → ℕ → List ℕ → Run (List ℕ)
clear_bits_or_panic window_size max_seq i zero bitmap = returns bitmap
clear_bits_or_panic window_size max_seq i (suc n) bitmap = do
  cleared ← clear_bit_or_panic bitmap (u32 (max_seq + u32 i)) window_size
  clear_bits_or_panic window_size max_seq (i + 1) n cleared

unfoldable pub start_at_or_panic : ℕ → ℕ → List ℕ → Run ClientState
start_at_or_panic window_size seq bitmap = do
  marked ← set_bit_or_panic bitmap seq window_size
  returns (record { max_seq = seq; bitmap = marked; inited = true })

unfoldable pub clear_ahead_or_panic : ℕ → ClientState → ℕ → Run (List ℕ)
clear_ahead_or_panic window_size cs shift =
    if leb window_size shift
    then returns (zero_words cs.bitmap)
    else clear_bits_or_panic window_size cs.max_seq 1 shift cs.bitmap

unfoldable pub slide_to_or_panic : ℕ → ClientState → ℕ → ℕ → Run ClientState
slide_to_or_panic window_size cs seq shift = do
  cleared ← clear_ahead_or_panic window_size cs shift
  marked ← set_bit_or_panic cleared seq window_size
  returns (record cs { max_seq = seq; bitmap = marked })

abbrev mark_or_panic : ℕ → ClientState → ℕ → Bool → Run (Bool × ClientState)
mark_or_panic window_size cs seq true = returns (true, cs)
mark_or_panic window_size cs seq false = do
  marked ← set_bit_or_panic cs.bitmap seq window_size
  returns (false, record cs { bitmap = marked })

unfoldable pub check_behind_or_panic : ℕ → ClientState → ℕ → ℕ → Run (Bool × ClientState)
check_behind_or_panic window_size cs seq behind =
    if leb window_size behind
    then (do cs' ← start_at_or_panic window_size seq (zero_words cs.bitmap); returns (false, cs'))
    else (do
      seen ← get_bit_or_panic cs.bitmap seq window_size
      mark_or_panic window_size cs seq seen)

unfoldable pub check_diff_or_panic : ℕ → ClientState → ℕ → ℤ → Run (Bool × ClientState)
check_diff_or_panic window_size cs seq (pos zero) = returns (true, cs)
check_diff_or_panic window_size cs seq (pos (suc k)) = do
  cs' ← slide_to_or_panic window_size cs seq (suc k)
  returns (false, cs')
check_diff_or_panic window_size cs seq (negsuc k) = check_behind_or_panic window_size cs seq (suc k)

unfoldable pub check_or_panic : ℕ → ClientState → ℕ → Run (Bool × ClientState)
check_or_panic window_size cs seq =
    if cs.inited
    then check_diff_or_panic window_size cs seq (seq_diff seq cs.max_seq)
    else (do cs' ← start_at_or_panic window_size seq cs.bitmap; returns (false, cs'))

unfoldable pub is_duplicate_or_panic : Deduplicator → ℕ → ℕ → Run (Bool × Deduplicator)
is_duplicate_or_panic d client_id seq = do
  (dup, cs) ← check_or_panic d.window_size (client_state d client_id) seq
  returns (dup, record d { clients = insert client_id cs d.clients })

index-get_or : (b : List ℕ) (i : ℕ) → i < length b → index b i ≡ returns (get_or b i 0)
unfolding index
index-get_or [] i h = absurd (omega arith)
index-get_or (x ∷ xs) zero h = refl
index-get_or (x ∷ xs) (suc i) h = index-get_or xs i (omega arith)

module _ {w : ℕ} {bitmap : List ℕ} (sized : IsSized w bitmap) (seq : ℕ) where
  nonzero : (w == 0) ≡ false
  nonzero = ground (arith, sized.positive)

  word_at : index bitmap (seq % w / 64) ≡ returns (get_or bitmap (seq % w / 64) 0)
  word_at = index-get_or bitmap (seq % w / 64) (index_in_range sized seq)

  set_bit_returns : set_bit_or_panic bitmap seq w ≡ returns (set_bit bitmap seq w)
  unfolding set_bit_or_panic set_bit
  set_bit_returns = rw nonzero (rw word_at refl)

  clear_bit_returns : clear_bit_or_panic bitmap seq w ≡ returns (clear_bit bitmap seq w)
  unfolding clear_bit_or_panic clear_bit
  clear_bit_returns = rw nonzero (rw word_at refl)

  get_bit_returns : get_bit_or_panic bitmap seq w ≡ returns (get_bit bitmap seq w)
  unfolding get_bit_or_panic get_bit
  get_bit_returns = rw nonzero (rw word_at refl)

  start_at_returns : start_at_or_panic w seq bitmap ≡ returns (start_at w seq bitmap)
  unfolding start_at_or_panic start_at
  start_at_returns = rw set_bit_returns refl

clear_bits_returns :
    (w max_seq i n : ℕ) (bitmap : List ℕ)
    → IsSized w bitmap
    → clear_bits_or_panic w max_seq i n bitmap ≡ returns (clear_bits w max_seq i n bitmap)
unfolding clear_bits_or_panic clear_bits
clear_bits_returns w max_seq i zero bitmap sized = refl
clear_bits_returns w max_seq i (suc n) bitmap sized =
    rw (clear_bit_returns sized (u32 (max_seq + u32 i)))
      (clear_bits_returns w max_seq (i + 1) n _ (clear_bit-IsSized sized _))

module _ (w : ℕ) (cs : ClientState) (seq : ℕ) (sized : IsSized w cs.bitmap) where
  clear_ahead_returns :
      (shift : ℕ) → clear_ahead_or_panic w cs shift ≡ returns (clear_ahead w cs shift)
  unfolding clear_ahead_or_panic clear_ahead
  clear_ahead_returns shift = elim (Bool-cases (leb w shift)) [
    | inl far ↦ rw far refl
    | inr near ↦ rw near (clear_bits_returns w cs.max_seq 1 shift cs.bitmap sized)
  ]

  slide_to_returns :
      (shift : ℕ) → slide_to_or_panic w cs seq shift ≡ returns (slide_to w cs seq shift)
  unfolding slide_to_or_panic slide_to
  slide_to_returns shift =
      rw (clear_ahead_returns shift)
        (rw (set_bit_returns (clear_ahead-IsSized w cs shift sized) seq) refl)

  check_behind_returns :
      (behind : ℕ) → check_behind_or_panic w cs seq behind ≡ returns (check_behind w cs seq behind)
  unfolding check_behind_or_panic check_behind
  check_behind_returns behind = elim (Bool-cases (leb w behind)) [
    | inl far ↦ rw far (rw (start_at_returns (zero_words-IsSized sized) seq) refl)
    | inr near ↦ rw near (rw (get_bit_returns sized seq) (marked (get_bit cs.bitmap seq w)))
  ]
    where
      marked :
          (seen : Bool)
          → mark_or_panic w cs seq seen
            ≡ returns (
                if seen
                then (true, cs)
                else (false, record cs { bitmap = set_bit cs.bitmap seq w }))
      marked true = refl
      marked false = rw (set_bit_returns sized seq) refl

  check_diff_returns :
      (diff : ℤ) → check_diff_or_panic w cs seq diff ≡ returns (check_diff w cs seq diff)
  unfolding check_diff_or_panic check_diff
  check_diff_returns (pos zero) = refl
  check_diff_returns (pos (suc k)) = rw (slide_to_returns (suc k)) refl
  check_diff_returns (negsuc k) = check_behind_returns (suc k)

  check_returns : check_or_panic w cs seq ≡ returns (check w cs seq)
  unfolding check_or_panic check
  check_returns = elim (Bool-cases cs.inited) [
    | inl going ↦
        if_true cs.inited (check_diff_or_panic w cs seq (seq_diff seq cs.max_seq)) _ going
        ∙ check_diff_returns (seq_diff seq cs.max_seq)
        ∙ ap returns
            (sym (if_true cs.inited (check_diff w cs seq (seq_diff seq cs.max_seq)) _ going))
    | inr first ↦
        if_false cs.inited (check_diff_or_panic w cs seq (seq_diff seq cs.max_seq)) _ first
        ∙ rw (start_at_returns sized seq) refl
        ∙ ap returns (sym (if_false cs.inited _ (false, start_at w seq cs.bitmap) first))
  ]

-- For a deduplicator whose bitmaps are long enough for its window, a call panics at no index and
-- returns the verdict and the state of the model without panics.
is_duplicate_returns :
    (d : Deduplicator) (c seq : ℕ)
    → IsSound d
    → is_duplicate_or_panic d c seq ≡ returns (is_duplicate d c seq)
unfolding is_duplicate_or_panic is_duplicate
is_duplicate_returns d c seq sound =
    rw (check_returns d.window_size (client_state d c) seq (client_state-IsSized d c sound)) refl

short_bitmap :
    (w seq : ℕ)
    → w < 2 ^ 32
    → (w ≡ 0) ⊎ (2 ^ 32 < w + 64)
    → start_at_or_panic w seq (replicate (u32 (w + 63) / 64) 0) ≡ panics
unfolding start_at_or_panic set_bit_or_panic index
short_bitmap w seq word (inl none') = rw none' refl
short_bitmap w seq word (inr large) =
    let empty : u32 (w + 63) / 64 ≡ 0 = omega arith in
    let some' : (w == 0) ≡ false = ground (arith, large) in rw (empty, some') refl

-- For the other sizes that a uint32 holds, the first packet panics.
first_packet_panics :
    (w c seq : ℕ)
    → w < 2 ^ 32
    → (w ≡ 0) ⊎ (2 ^ 32 < w + 64)
    → is_duplicate_or_panic (record { window_size = w; clients = [] }) c seq ≡ panics
unfolding is_duplicate_or_panic check_or_panic client_state new_client lookup
first_packet_panics w c seq word bad = rw (short_bitmap w seq word bad) refl
