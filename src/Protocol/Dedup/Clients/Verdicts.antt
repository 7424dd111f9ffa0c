-- ===== src/Protocol/Dedup/Clients/Verdicts.antt =====
-- The promises of `IsDuplicate` in dedup.go, over every history of calls from a new deduplicator
-- whose window size divides 2 ^ 32.
use mpfpv.Prelude.{
  ℕ, zero, suc, ◌^◌, ◌<◌, ◌≡◌, ◌≢◌, refl, sym, ◌∙◌, arith, List, [], ◌∷◌, ◌++◌, true, false, ◌==◌,
  ==_refl, Bool-cases, inl, inr,
}
use mpfpv.Prelude.Int.{ℤ, pos, negsuc}
use mpfpv.Protocol.Dedup.{
  Deduplicator, ClientState, new_deduplicator, client_state, check, is_duplicate,
}
use mpfpv.Protocol.Dedup.Window.{Window, receive, receive_some}
use mpfpv.Protocol.Dedup.Refine.{check-Agree}
use mpfpv.Protocol.Dedup.Refine.Relation.{Refines, IsWindowSize}
use mpfpv.Protocol.Dedup.History.{
  Holds, StaysCovered, check_known, check-Holds_self, check-Holds, check_duplicate,
  check-receive_some,
}
use mpfpv.Protocol.Dedup.Clients.{
  Call, packet, restart, run, received, AreWords, window_size-run, state-packet, state-restart,
}
use mpfpv.Protocol.Dedup.Clients.Tracks.{view, run-Refined, run-Known, verdict-check}

clients-new : (z : ℤ) → (new_deduplicator z).clients ≡ []
unfolding new_deduplicator
clients-new (pos zero) = refl
clients-new (pos (suc n)) = refl
clients-new (negsuc n) = refl

-- None of the later calls resets the client, and none of its packets counts as a restart or moves
-- the window past `seq`. The latest call stands first.
abbrev pub StaysCoveredCalls : Deduplicator → ℕ → ℕ → List Call → Type 0
StaysCoveredCalls d c seq [] = Unit
StaysCoveredCalls d c seq (packet j q ∷ earlier) =
    (q < 2 ^ 32)
    × (j ≡ c → StaysCovered d.window_size (client_state (run d earlier) c).max_seq seq q)
    × StaysCoveredCalls d c seq earlier
StaysCoveredCalls d c seq (restart j ∷ earlier) = (j ≢ c) × StaysCoveredCalls d c seq earlier

run-append :
    (d : Deduplicator) (later earlier : List Call)
    → run d (later ++ earlier) ≡ run (run d earlier) later
unfolding run
run-append d [] earlier = refl
run-append d (packet j q ∷ later) earlier = rw (run-append d later earlier)
run-append d (restart j ∷ later) earlier = rw (run-append d later earlier)

-- The window that the client's state stands for holds `seq`.
record StillHolds (window_size seq : ℕ) (cs : ClientState) : Type 0 where
  win : Window
  refines : Refines window_size cs win
  holds : Holds window_size seq win

module _ (d : Deduplicator) (size : IsWindowSize d.window_size) (c seq : ℕ) (p : seq < 2 ^ 32) where
  packet-StillHolds :
      (q : ℕ) (cs : ClientState)
      → q < 2 ^ 32
      → StaysCovered d.window_size cs.max_seq seq q
      → StillHolds d.window_size seq cs
      → StillHolds d.window_size seq (check d.window_size cs q).1
  packet-StillHolds q cs l cov h = record {
    win = (receive_some d.window_size h.win q).1;
    refines = (check-receive_some size cs q l h.win h.refines).1;
    holds = check-Holds size cs seq q h.win p l h.refines h.holds cov;
  }

  calls-StillHolds :
      (later : List Call)
      → StaysCoveredCalls d c seq later
      → StillHolds d.window_size seq (client_state d c)
      → StillHolds d.window_size seq (client_state (run d later) c)
  calls-StillHolds [] cov h = unfold run in h
  calls-StillHolds (packet j q ∷ later) cov h = elim (Bool-cases (j == c)) [
    | inl hit ↦
        rw (state-packet d j q c later, hit)
          (packet-StillHolds q (client_state (run d later) c) cov.0 (cov.1 (ground arith))
            (calls-StillHolds later cov.2 h))
    | inr miss ↦ rw (state-packet d j q c later, miss) (calls-StillHolds later cov.2 h)
  ]
  calls-StillHolds (restart j ∷ later) cov h =
      let miss : (j == c) ≡ false = ground (arith, cov.0) in
      rw (state-restart d j c later, miss) (calls-StillHolds later cov.1 h)

  StillHolds-duplicate :
      (later : List Call)
      → StillHolds d.window_size seq (client_state (run d later) c)
      → (is_duplicate (run d later) c seq).0 ≡ true
  StillHolds-duplicate later h =
      verdict-check d c seq later ∙ check_duplicate size _ seq h.win p h.refines h.holds

module _ (z : ℤ) (size : IsWindowSize (new_deduplicator z).window_size) where
  abbrev w : ℕ
  w = (new_deduplicator z).window_size

  -- After any calls on a deduplicator whose window size divides 2 ^ 32 and is at most 2 ^ 31, the
  -- verdict on a packet, computed on the bitmap, is the one of the abstract window of the packets
  -- received.
  pub is_duplicate-eq-receive :
      (calls : List Call) (c seq : ℕ)
      → AreWords calls
      → seq < 2 ^ 32
      → (is_duplicate (run (new_deduplicator z) calls) c seq).0
        ≡ (receive
            (new_deduplicator z).window_size
            (view (new_deduplicator z).window_size c calls)
            seq).0
  is_duplicate-eq-receive calls c seq h p =
      verdict-check (new_deduplicator z) c seq calls
      ∙ (check-Agree size (client_state (run (new_deduplicator z) calls) c) seq p (view w c calls)
          (run-Refined (new_deduplicator z) (clients-new z) size c calls h)).0

  -- A packet that such a deduplicator reports as a duplicate was received from that client since
  -- the client's last reset: no packet is dropped that did not come before.
  pub dropped-received :
      (calls : List Call) (c seq : ℕ)
      → AreWords calls
      → seq < 2 ^ 32
      → (is_duplicate (run (new_deduplicator z) calls) c seq).0 ≡ true
      → received c seq calls ≡ true
  dropped-received calls c seq h p dup =
      check_known size (client_state (run d calls) c) (λ s. received c s calls ≡ true) seq
        (view w c calls) p (run-Refined d none_yet size c calls h)
        (run-Known d none_yet size c calls h) (sym (verdict-check d c seq calls) ∙ dup)
    where
      d : Deduplicator
      d = new_deduplicator z

      none_yet : d.clients ≡ []
      none_yet = clients-new z

  -- A packet that was given to a deduplicator, new before the calls, whose window size divides 2 ^
  -- 32 and is at most 2 ^ 31, is reported as a duplicate when it comes again, as long as no call
  -- between resets its client and no packet of its client between counts as a restart or moves the
  -- window past it.
  pub redelivery-dropped :
      (calls later : List Call) (c seq : ℕ)
      → AreWords calls
      → seq < 2 ^ 32
      → StaysCoveredCalls (run (new_deduplicator z) (packet c seq ∷ calls)) c seq later
      → (is_duplicate (run (new_deduplicator z) (later ++ packet c seq ∷ calls)) c seq).0 ≡ true
  redelivery-dropped calls later c seq h p cov = rw (run-append d later (packet c seq ∷ calls)) (
      StillHolds-duplicate after size' c seq p later
        (calls-StillHolds after size' c seq p later cov first))
    where
      d : Deduplicator
      d = new_deduplicator z

      after : Deduplicator
      after = run d (packet c seq ∷ calls)

      size' : IsWindowSize after.window_size
      size' = rw (window_size-run d (packet c seq ∷ calls)) size

      start : StillHolds w seq (check w (client_state (run d calls) c) seq).1
      start = record {
        win = (receive w (view w c calls) seq).1;
        refines = (check-Agree size _ seq p _ (run-Refined d (clients-new z) size c calls h)).1;
        holds = check-Holds_self size _ seq _ p (run-Refined d (clients-new z) size c calls h);
      }

      first : StillHolds after.window_size seq (client_state after c)
      first =
          rw (state-packet d c seq c calls, ==_refl c, window_size-run d (packet c seq ∷ calls))
            start
