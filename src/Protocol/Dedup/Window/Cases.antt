-- ===== src/Protocol/Dedup/Window/Cases.antt =====
-- The five ways in which the window takes a packet.
use mpfpv.Prelude.{
  ℕ, ◌+◌, ◌-◌, ◌%◌, ◌^◌, ◌<◌, ◌≤◌, ◌≡◌, arith, Bool, true, false, leb, ◌==◌, Bool-cases, inl, inr,
}
use mpfpv.Protocol.Dedup.Window.{Window, only, advance, mark, forward, receive_behind, receive_some}

pub data Received (w : ℕ) (win : Window) (q : ℕ) : Bool × Window → Type 0 where
  again : q ≡ win.top → Received w win q (true, win)
  later :
      (k : ℕ)
      → q ≡ (win.top + k) % 2 ^ 32
      → k ≡ forward win.top q
      → 0 < k
      → k ≤ 2 ^ 31
      → Received w win q (false, advance win q k)
  restart :
      (k : ℕ)
      → 2 ^ 32 ≡ k + forward win.top q
      → 2 ^ 31 < forward win.top q
      → w ≤ k
      → Received w win q (false, only q)
  held :
      (k : ℕ)
      → q ≡ (win.top + 2 ^ 32 - k) % 2 ^ 32
      → k < w
      → win.seen k ≡ true
      → Received w win q (true, win)
  gap :
      (k : ℕ)
      → q ≡ (win.top + 2 ^ 32 - k) % 2 ^ 32
      → 0 < k
      → k < w
      → k < 2 ^ 31
      → win.seen k ≡ false
      → Received w win q (false, mark win k)

receive_behind-cases :
    (w : ℕ) (win : Window) (q k : ℕ)
    → q < 2 ^ 32
    → win.top < 2 ^ 32
    → 2 ^ 31 < forward win.top q
    → 2 ^ 32 ≡ k + forward win.top q
    → Received w win q (receive_behind w win q k)
unfolding receive_behind
receive_behind-cases w win q k p t f e = elim (Bool-cases (leb w k)) [
  | inl far ↦ rw (far, receive_behind) (restart k e f (ground arith))
  | inr near ↦
      rw (near, receive_behind)
        (elim (Bool-cases (win.seen k)) [
          | inl old ↦ rw old (held k (omega arith) (ground arith) old)
          | inr new ↦ rw new (gap k (omega arith) (omega arith) (ground arith) (omega arith) new)
        ])
]

pub receive_some-cases :
    (w : ℕ) (win : Window) (q : ℕ)
    → q < 2 ^ 32
    → win.top < 2 ^ 32
    → Received w win q (receive_some w win q)
unfolding receive_some
receive_some-cases w win q p t = elim (Bool-cases (forward win.top q == 0)) [
  | inl none' ↦ rw (none', receive_some) (again (ground arith))
  | inr moved ↦
      rw (moved, receive_some)
        (elim (Bool-cases (leb (forward win.top q) (2 ^ 31))) [
          | inl up ↦ rw up (
              later (forward win.top q) (ground arith) (ground arith) (ground arith) (ground arith))
          | inr down ↦ rw down (
              receive_behind-cases w win q (2 ^ 32 - forward win.top q) p t (ground arith)
                (omega arith))
        ])
]
