-- ===== src/Protocol/Dedup/History.antt =====
-- One client of dedup.go against the packets that it has been given: what is dropped was received
-- before, and what was received is dropped while the window covers it.
use mpfpv.Prelude.{
  sym, ℕ, ◌+◌, ◌-◌, ◌%◌, ◌^◌, ◌<◌, ◌≤◌, ◌≡◌, refl, arith, Bool, true, Option, none, some, ◌==◌,
  Bool-cases, inl, inr, ◌∙◌,
}
use mpfpv.Protocol.Dedup.{ClientState, check}
use mpfpv.Protocol.Dedup.Window.{Window, forward, receive_some, receive}
use mpfpv.Protocol.Dedup.Window.Cases.{
  Received, again, later, restart, held, gap, receive_some-cases,
}
use mpfpv.Protocol.Dedup.Refine.{Agree, check-Agree}
use mpfpv.Protocol.Dedup.Refine.Relation.{Refines, Refined, IsWindowSize}

-- The distance of `s` behind the top.
abbrev backward : ℕ → ℕ → ℕ
backward top s = (top + 2 ^ 32 - s) % 2 ^ 32

-- Everything that the window holds satisfies P.
abbrev pub Known : ℕ → (ℕ → Type 0) → Option Window → Type 0
Known window_size P none = Unit
Known window_size P (some w) =
    (w.top < 2 ^ 32)
    × P w.top
    × ((d : ℕ) → d < window_size → w.seen d ≡ true → P ((w.top + 2 ^ 32 - d) % 2 ^ 32))

-- The window covers `s`, and holds it.
abbrev pub Holds : ℕ → ℕ → Window → Type 0
Holds window_size s w =
    (w.top < 2 ^ 32) × (backward w.top s < window_size) × (w.seen (backward w.top s) ≡ true)

-- `q` neither counts as a restart nor moves the window past `s`.
abbrev pub StaysCovered : ℕ → ℕ → ℕ → ℕ → Type 0
StaysCovered window_size top s q =
    (forward top q ≤ 2 ^ 31 → forward top q + backward top s < window_size)
    × (2 ^ 31 < forward top q → 2 ^ 32 - forward top q < window_size)

only-Known :
    (P : ℕ → Type 0) (q d : ℕ) → q < 2 ^ 32 → P q → (d == 0) ≡ true → P ((q + 2 ^ 32 - d) % 2 ^ 32)
only-Known P q d p new on = let e : (q + 2 ^ 32 - d) % 2 ^ 32 ≡ q = ground arith in rw e new

module _ {w : ℕ} (size : IsWindowSize w) {win : Window} where
  Received-Holds :
      (s q : ℕ) {r : Bool × Window}
      → s < 2 ^ 32
      → q < 2 ^ 32
      → Holds w s win
      → StaysCovered w win.top s q
      → Received w win q r
      → Holds w s r.1
  Received-Holds s q ps pq h c (again e) = h
  Received-Holds s q ps pq h c (held k e l on) = h
  Received-Holds s q ps pq h c (restart k e f far) = absurd (omega (arith, c.1 f))
  Received-Holds s q ps pq h c (gap k e l0 l1 l2 off) = (h.0, h.1, ground arith)
  Received-Holds s q ps pq h c (later k e f l0 l1) =
      let room : k + backward win.top s < w = rw f (c.0 (omega arith)) in
      let moved : backward q s ≡ backward win.top s + k = omega (arith, size.small) in
      let back : backward win.top s + k - k ≡ backward win.top s = omega arith in
      rw moved (pq, omega arith, ground (arith, back))

  Received-Holds_self :
      (s : ℕ) {r : Bool × Window}
      → s < 2 ^ 32
      → win.top < 2 ^ 32
      → win.seen 0 ≡ true
      → Received w win s r
      → Holds w s r.1
  Received-Holds_self s p t newest (again e) =
      let d : backward win.top s ≡ 0 = omega arith in rw d (t, size.positive, newest)
  Received-Holds_self s p t newest (held k e l on) =
      let d : backward win.top s ≡ k = omega (arith, size.small) in rw d (t, l, on)
  Received-Holds_self s p t newest (restart k e f far) =
      let d : backward s s ≡ 0 = omega arith in rw d (p, size.positive, refl)
  Received-Holds_self s p t newest (gap k e l0 l1 l2 off) =
      let d : backward win.top s ≡ k = omega (arith, size.small) in rw d (t, l1, ground arith)
  Received-Holds_self s p t newest (later k e f l0 l1) =
      let d : backward s s ≡ 0 = omega arith in rw d (p, size.positive, refl)

  Received_duplicate :
      (s : ℕ) {r : Bool × Window} → s < 2 ^ 32 → Holds w s win → Received w win s r → r.0 ≡ true
  Received_duplicate s p h (again e) = refl
  Received_duplicate s p h (held k e l on) = refl
  Received_duplicate s p h (restart k e f far) = absurd (omega (arith, size.small))
  Received_duplicate s p h (gap k e l0 l1 l2 off) =
      let same' : backward win.top s ≡ k = omega (arith, size.small) in cc (rw same' at h.2)
  Received_duplicate s p h (later k e f l0 l1) = absurd (omega (arith, size.small))

  Received-Known :
      (P : ℕ → Type 0) (q : ℕ) {r : Bool × Window}
      → q < 2 ^ 32
      → Known w P (some win)
      → P q
      → Received w win q r
      → Known w P (some r.1)
  Received-Known P q pq h new (again e) = h
  Received-Known P q pq h new (held k e l on) = h
  Received-Known P q pq h new (restart k e f far) = (pq, new, λ d l on. only-Known P q d pq new on)
  Received-Known P q pq h new (gap k e l0 l1 l2 off) = (
    h.0,
    h.1,
    λ d l on. elim (Bool-cases (d == k)) [
      | inl here ↦ let e' : d ≡ k = ground arith in rw e' (rw (← e) new)
      | inr there ↦ h.2 d l (ground arith)
    ],
  )
  Received-Known P q pq h new (later k e f l0 l1) = (
    pq,
    new,
    λ d l on. elim (Bool-cases (d == 0)) [
      | inl here ↦ only-Known P q d pq new here
      | inr there ↦
          let e' : (q + 2 ^ 32 - d) % 2 ^ 32 ≡ (win.top + 2 ^ 32 - (d - k)) % 2 ^ 32 =
            ground (arith, size.small) in
          rw e' (h.2 (d - k) (omega arith) (ground arith))
    ],
  )

  Received_known :
      (P : ℕ → Type 0) (q : ℕ) {r : Bool × Window}
      → Known w P (some win)
      → Received w win q r
      → r.0 ≡ true
      → P q
  Received_known P q h (again e) dup = rw e h.1
  Received_known P q h (held k e l on) dup = rw e (h.2 k l on)
  Received_known P q h (restart k e f far) dup = cc
  Received_known P q h (gap k e l0 l1 l2 off) dup = cc
  Received_known P q h (later k e f l0 l1) dup = cc

module _ {w : ℕ} (size : IsWindowSize w) (cs : ClientState) where
  -- The window that a client's state stands for, with what is known of it.
  pub check-Known :
      (P : ℕ → Type 0) (seq : ℕ) (o : Option Window)
      → seq < 2 ^ 32
      → Refined w cs o
      → Known w P o
      → P seq
      → Known w P (some (receive w o seq).1)
  unfolding receive
  check-Known P seq none p r h new = (p, new, λ d l on. only-Known P seq d p new on)
  check-Known P seq (some win) p r h new =
      Received-Known size P seq p h new (receive_some-cases w win seq p r.bound)

  -- A packet that is dropped was known.
  pub check_known :
      (P : ℕ → Type 0) (seq : ℕ) (o : Option Window)
      → seq < 2 ^ 32
      → Refined w cs o
      → Known w P o
      → (check w cs seq).0 ≡ true
      → P seq
  unfolding receive
  check_known P seq none p r h dup = cc ((check-Agree size cs seq p none r).0)
  check_known P seq (some win) p r h dup =
      Received_known size P seq h (receive_some-cases w win seq p r.bound)
        (sym (check-Agree size cs seq p (some win) r).0 ∙ dup)

  -- Just after it was given, a packet is in the window.
  pub check-Holds_self :
      (seq : ℕ) (o : Option Window)
      → seq < 2 ^ 32
      → Refined w cs o
      → Holds w seq (receive w o seq).1
  unfolding receive
  check-Holds_self seq none p r =
      let e : backward seq seq ≡ 0 = omega arith in rw e (p, size.positive, refl)
  check-Holds_self seq (some win) p r =
      Received-Holds_self size seq p r.bound r.newest (receive_some-cases w win seq p r.bound)

  pub check-Holds :
      (s q : ℕ) (win : Window)
      → s < 2 ^ 32
      → q < 2 ^ 32
      → Refines w cs win
      → Holds w s win
      → StaysCovered w cs.max_seq s q
      → Holds w s (receive_some w win q).1
  check-Holds s q win p l r h c =
      Received-Holds size s q p l h (rw r.top at c) (receive_some-cases w win q l r.bound)

  pub check-receive_some :
      (s : ℕ)
      → s < 2 ^ 32
      → (win : Window) → Refines w cs win
      → Agree w (check w cs s) (receive_some w win s)
  unfolding receive
  check-receive_some s p win r = check-Agree size cs s p (some win) r

  pub check_duplicate :
      (s : ℕ) (win : Window)
      → s < 2 ^ 32
      → Refines w cs win
      → Holds w s win
      → (check w cs s).0 ≡ true
  check_duplicate s win p r h =
      (check-receive_some s p win r).0
      ∙ Received_duplicate size s p h (receive_some-cases w win s p r.bound)
