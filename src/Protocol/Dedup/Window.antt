-- ===== src/Protocol/Dedup/Window.antt =====
-- What dedup.go promises for one client, with no bitmap: the newest sequence number, and for each
-- distance behind it whether that packet has been received. Distances are taken on the circle of
-- 32-bit sequence numbers.
pub mod Cases
use mpfpv.Prelude.{
  ℕ, ◌+◌, ◌-◌, ◌%◌, ◌^◌, Bool, true, false, Option, none, some, ltb, leb, ◌==◌, if◌then◌else◌,
}

pub record Window : Type 0 where
  pub top : ℕ
  pub seen : ℕ → Bool

-- Only `seq` has been received.
abbrev pub only : ℕ → Window
only seq = record { top = seq; seen = λ d. d == 0 }

-- The window moves on by `k`: what lay at distance d lies at d + k, and between are gaps.
abbrev pub advance : Window → ℕ → ℕ → Window
advance w seq k = record {
  top = seq;
  seen = λ d. if d == 0 then true else if ltb d k then false else w.seen (d - k);
}

abbrev pub mark : Window → ℕ → Window
mark w k = record w { seen = λ d. if d == k then true else w.seen d }

-- A packet `back` behind the top; from the window's size on it counts as a restart.
unfoldable pub receive_behind : ℕ → Window → ℕ → ℕ → Bool × Window
receive_behind window_size w seq back =
    if leb window_size back
    then (false, only seq)
    else if w.seen back
    then (true, w)
    else (false, mark w back)

abbrev pub forward : ℕ → ℕ → ℕ
forward top seq = (seq + 2 ^ 32 - top) % 2 ^ 32

unfoldable pub receive_some : ℕ → Window → ℕ → Bool × Window
unfolding receive_behind
receive_some window_size w seq =
    let k = forward w.top seq in
    if k == 0
    then (true, w)
    else if leb k (2 ^ 31)
    then (false, advance w seq k)
    else receive_behind window_size w seq (2 ^ 32 - k)

-- Whether the packet is a duplicate, and the window after it.
unfoldable pub receive : ℕ → Option Window → ℕ → Bool × Window
unfolding receive_some
receive window_size none seq = (false, only seq)
receive window_size (some w) seq = receive_some window_size w seq
