-- ===== src/Protocol/Dedup/Refine.antt =====
-- The bitmap of dedup.go implements the window, for sizes that divide 2 ^ 32.
mod Distance
mod Slide
pub mod Relation
use mpfpv.Prelude.{
  ℕ, zero, suc, ◌+◌, ◌-◌, ◌%◌, ◌^◌, ◌<◌, ◌≤◌, ◌≡◌, ◌≢◌, refl, sym, ◌∙◌, arith, List, Bool, true,
  false, Option, none, some, ltb, leb, ◌==◌, if◌then◌else◌, Bool-cases, inl, inr,
}
use mpfpv.Prelude.Int.{ℤ, pos, negsuc}
use mpfpv.Protocol.Dedup.{
  ClientState, set_bit, get_bit, zero_words, clear_bits, clear_ahead, start_at, slide_to,
  check_behind, check_diff, check, seq_diff,
}
use mpfpv.Protocol.Dedup.Bitmap.{
  IsSized, get_bit-set_bit, get_bit-zero_words, set_bit-IsSized, zero_words-IsSized,
}
use mpfpv.Protocol.Dedup.Window.{
  Window, only, advance, mark, forward, receive_behind, receive_some, receive,
}
use Distance.{Placed, same, ahead, behind, seq_diff-Placed, residues_differ, get_bit_cong}
use Slide.{clear_bits-IsSized, get_bit-clear_bits_in, get_bit-clear_bits_out}
use Relation.{Refines, IsFresh, Refined, IsWindowSize, cong32, residue_at, start_at-Refines}

module _ {w : ℕ} (size : IsWindowSize w) {cs : ClientState} {win : Window}
    (r : Refines w cs win) where
  seen-get_bit :
      (seq k : ℕ)
      → seq % 2 ^ 32 ≡ (win.top + 2 ^ 32 - k) % 2 ^ 32
      → k < w
      → get_bit cs.bitmap seq w ≡ win.seen k
  seen-get_bit seq k e p =
      get_bit_cong cs.bitmap w seq (win.top + 2 ^ 32 - k) (cong32 size _ _ e) ∙ r.bits k p

  mark-Refines :
      (seq k : ℕ)
      → seq % 2 ^ 32 ≡ (win.top + 2 ^ 32 - k) % 2 ^ 32
      → k < w
      → Refines w (record cs { bitmap = set_bit cs.bitmap seq w }) (mark win k)
  mark-Refines seq k e p = record {
    inited = r.inited;
    sized = set_bit-IsSized r.sized seq;
    top = r.top;
    bound = r.bound;
    newest = ground (arith, r.newest);
    bits = λ d q. ground (
      arith,
      get_bit-set_bit r.sized seq (win.top + 2 ^ 32 - d),
      residue_at size win.top seq k d e p q,
      r.bits d q,
    );
  }

  check_behind-Refines :
      (seq k : ℕ)
      → seq < 2 ^ 32
      → seq ≡ (win.top + 2 ^ 32 - k) % 2 ^ 32
      → ((check_behind w cs seq k).0 ≡ (receive_behind w win seq k).0)
        × Refines w (check_behind w cs seq k).1 (receive_behind w win seq k).1
  unfolding check_behind receive_behind
  check_behind-Refines seq k p e = elim (Bool-cases (leb w k)) [
    | inl far ↦
        rw (far, check_behind, receive_behind)
          (
            refl,
            start_at-Refines size seq _ p (zero_words-IsSized r.sized) (get_bit-zero_words r.sized),
          )
    | inr near ↦
        let e' : seq % 2 ^ 32 ≡ (win.top + 2 ^ 32 - k) % 2 ^ 32 = omega arith in
        let q : k < w = ground arith in
        rw (near, seen-get_bit seq k e' q)
          (elim (Bool-cases (win.seen k)) [
            | inl old ↦ rw old (refl, r)
            | inr new ↦ rw new (refl, mark-Refines seq k e' q)
          ])
  ]

-- The window slides forward by k.
module _ {w : ℕ} (size : IsWindowSize w) {cs : ClientState} {win : Window} (r : Refines w cs win)
    (seq k : ℕ) (p : seq < 2 ^ 32) (e : seq ≡ (win.top + suc k) % 2 ^ 32) where
  -- Position d behind the new top is suc k - d ahead of the old one.
  from_old : (d : ℕ) → d < w → (seq + 2 ^ 32 - d) % w ≡ (win.top + 2 ^ 32 + suc k - d) % w
  from_old d q = cong32 size _ _ (omega (arith, size.small, r.bound))

  swept :
      (d : ℕ)
      → 0 < d
      → d < suc k
      → suc k < w
      → get_bit (clear_bits w cs.max_seq 1 (suc k) cs.bitmap) (seq + 2 ^ 32 - d) w ≡ false
  swept d d_pos d_le k_lt =
      get_bit-clear_bits_in w cs.max_seq size.divides 1 (suc k) (suc k - d) _ cs.bitmap r.sized
        (omega arith) (omega arith)
        (from_old d (omega arith) ∙ cong32 size _ _ (omega (arith, r.top)))

  kept :
      (d : ℕ)
      → suc k ≤ d
      → d < w
      → get_bit (clear_bits w cs.max_seq 1 (suc k) cs.bitmap) (seq + 2 ^ 32 - d) w
        ≡ win.seen (d - suc k)
  kept d k_le q =
      get_bit-clear_bits_out w cs.max_seq size.divides 1 (suc k) _ cs.bitmap r.sized apart
      ∙ get_bit_cong cs.bitmap w _ (win.top + 2 ^ 32 - (d - suc k))
          (from_old d q ∙ cong32 size _ _ (omega (arith, size.small)))
      ∙ r.bits (d - suc k) (omega arith)
    where
      apart : (j : ℕ) → 1 ≤ j → j < 1 + suc k → (seq + 2 ^ 32 - d) % w ≢ (cs.max_seq + j) % w
      apart j j_pos j_le x =
          residues_differ w (win.top + 2 ^ 32 + suc k - d) (j + d - suc k) (omega arith)
            (omega arith)
            (sym (from_old d q) ∙ x ∙ cong32 size _ _ (omega (arith, r.top, size.small)))

  clear_ahead-IsSized : IsSized w (clear_ahead w cs (suc k))
  unfolding clear_ahead
  clear_ahead-IsSized = elim (Bool-cases (leb w (suc k))) [
    | inl all ↦ rw (all, clear_ahead) (zero_words-IsSized r.sized)
    | inr some' ↦
        rw (some', clear_ahead)
          (clear_bits-IsSized w cs.max_seq size.divides 1 (suc k) cs.bitmap r.sized)
  ]

  get_bit-clear_ahead :
      (d : ℕ)
      → 0 < d
      → d < w
      → get_bit (clear_ahead w cs (suc k)) (seq + 2 ^ 32 - d) w
        ≡ (if ltb d (suc k) then false else win.seen (d - suc k))
  unfolding clear_ahead
  get_bit-clear_ahead d d_pos q = elim (Bool-cases (leb w (suc k))) [
    | inl all ↦
        rw (all, clear_ahead) (ground (arith, get_bit-zero_words r.sized (seq + 2 ^ 32 - d)))
    | inr some' ↦ rw (some', clear_ahead) (ground (arith, swept d, kept d))
  ]

  slide_to-Refines : Refines w (slide_to w cs seq (suc k)) (advance win seq (suc k))
  unfolding slide_to
  slide_to-Refines = record {
    inited = r.inited;
    sized = set_bit-IsSized clear_ahead-IsSized seq;
    top = refl;
    bound = p;
    newest = refl;
    bits = λ d q. ground (
      arith,
      get_bit-set_bit clear_ahead-IsSized seq (seq + 2 ^ 32 - d),
      residue_at size seq seq 0 d (omega arith) size.positive q,
      get_bit-clear_ahead d,
    );
  }

-- What `check` and the window agree on: the verdict, and that the new states correspond.
abbrev pub Agree : ℕ → Bool × ClientState → Bool × Window → Type 0
Agree w a b = (a.0 ≡ b.0) × Refines w a.1 b.1

-- The window's three branches, by the distance.
module _ (w : ℕ) (win : Window) (seq k : ℕ) where
  receive_top : seq ≡ win.top → win.top < 2 ^ 32 → receive_some w win seq ≡ (true, win)
  unfolding receive_some
  receive_top e p = ground arith

  receive_ahead :
      seq ≡ (win.top + suc k) % 2 ^ 32
      → suc k ≤ 2 ^ 31
      → win.top < 2 ^ 32
      → receive_some w win seq ≡ (false, advance win seq (suc k))
  unfolding receive_some
  receive_ahead e q p =
      let f : forward win.top seq ≡ suc k = omega arith in rw (f, receive_some) (ground arith)

  receive_back :
      seq ≡ (win.top + 2 ^ 32 - suc k) % 2 ^ 32
      → suc k < 2 ^ 31
      → win.top < 2 ^ 32
      → receive_some w win seq ≡ receive_behind w win seq (suc k)
  unfolding receive_some
  receive_back e q p =
      let f : forward win.top seq ≡ 2 ^ 32 - suc k = omega arith in
      let g : 2 ^ 32 - (2 ^ 32 - suc k) ≡ suc k = omega arith in
      rw (f, receive_some) (ground (arith, g))

module _ {w : ℕ} (size : IsWindowSize w) (cs : ClientState) (seq : ℕ) (p : seq < 2 ^ 32) where
  -- Half the circle away, ahead and behind are the same: either way the window starts again.
  opposite-Refines :
      {win : Window}
      → Refines w cs win
      → seq ≡ (win.top + 2 ^ 31) % 2 ^ 32
      → Agree w (check_behind w cs seq (2 ^ 31)) (receive_some w win seq)
  unfolding check_behind
  opposite-Refines {win = win} r e =
      let fresh : Refines w (start_at w seq (zero_words cs.bitmap)) (only seq) =
        start_at-Refines size seq _ p (zero_words-IsSized r.sized) (get_bit-zero_words r.sized) in
      let far : leb w (2 ^ 31) ≡ true = ground (arith, size.small) in
      rw (receive_ahead w win seq (2 ^ 31 - 1) e (omega arith) r.bound) (
        rw (far, check_behind)
          (
            refl,
            record {
              inited = fresh.inited;
              sized = fresh.sized;
              top = fresh.top;
              bound = fresh.bound;
              newest = refl;
              bits = λ d q. ground (arith, fresh.bits d q, size.small);
            },
          ))

  check_diff-Agree :
      {win : Window} {z : ℤ}
      → Refines w cs win
      → Placed seq win.top z
      → Agree w (check_diff w cs seq z) (receive_some w win seq)
  unfolding check_diff
  check_diff-Agree {win = win} r (same e) = rw (receive_top w win seq 0 e r.bound) (refl, r)
  check_diff-Agree {win = win} r (ahead k e q) =
      rw (receive_ahead w win seq k e q r.bound) (refl, slide_to-Refines size r seq k p e)
  check_diff-Agree {win = win} r (behind k e q) = elim (Bool-cases (suc k == 2 ^ 31)) [
    | inl half ↦ let e' : suc k ≡ 2 ^ 31 = ground arith in rw e' (opposite-Refines r (omega arith))
    | inr near ↦
        rw (receive_back w win seq k e (ground arith) r.bound)
          (check_behind-Refines size r seq (suc k) p e)
  ]

  check-inited : cs.inited ≡ true → check w cs seq ≡ check_diff w cs seq (seq_diff seq cs.max_seq)
  unfolding check
  check-inited h = ground arith

  check-fresh : cs.inited ≡ false → check w cs seq ≡ (false, start_at w seq cs.bitmap)
  unfolding check
  check-fresh h = ground arith

  -- `check` decides as the window does, and keeps representing it.
  pub check-Agree :
      (o : Option Window) → Refined w cs o → Agree w (check w cs seq) (receive w o seq)
  unfolding receive
  check-Agree none f = rw (check-fresh f.idle) (refl, start_at-Refines size seq _ p f.sized f.clear)
  check-Agree (some win) r =
      rw (check-inited r.inited)
        (check_diff-Agree r (rw r.top (seq_diff-Placed seq win.top p r.bound)))
