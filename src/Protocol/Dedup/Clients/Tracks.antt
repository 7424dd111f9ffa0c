-- ===== src/Protocol/Dedup/Clients/Tracks.antt =====
-- What `IsDuplicate` of dedup.go answers over a whole history of calls.
use mpfpv.Prelude.{
  ℕ, ◌+◌, ◌%◌, ◌/◌, ◌^◌, ◌≡◌, refl, arith, List, [], ◌∷◌, true, Option, none, some, ◌==◌, ◌&&◌,
  ◌||◌, if◌then◌else◌, Bool-cases, inl, inr, nat_eq, length-replicate,
}
use mpfpv.Prelude.Map.{lookup}
use mpfpv.Protocol.Dedup.{Deduplicator, client_state, new_client, check, is_duplicate}
use mpfpv.Protocol.Dedup.Bitmap.{get_bit_none}
use mpfpv.Protocol.Dedup.Window.{Window, receive}
use mpfpv.Protocol.Dedup.Refine.{check-Agree}
use mpfpv.Protocol.Dedup.Refine.Relation.{Refined, IsFresh, IsWindowSize}
use mpfpv.Protocol.Dedup.History.{Known, check-Known}
use mpfpv.Protocol.Dedup.Clients.{
  Call, packet, restart, run, received, AreWords, window_size-run, state-packet, state-restart,
}

-- The window of a client after the calls, latest first: it starts at the first packet, and again
-- after a reset.
pub view : ℕ → ℕ → List Call → Option Window
view w c [] = none
view w c (packet j seq ∷ earlier) =
    let before = view w c earlier in if j == c then some (receive w before seq).1 else before
view w c (restart j ∷ earlier) = let before = view w c earlier in if j == c then none else before

new_client-IsFresh : (w : ℕ) → IsWindowSize w → IsFresh w (new_client w)
unfolding new_client
new_client-IsFresh w size = record {
  idle = refl;
  sized = record {
    positive = size.positive;
    room = omega (arith, length-replicate {A = ℕ} ((w + 63) % 2 ^ 32 / 64) 0, size.small);
  };
  clear = λ t. get_bit_none _ t w;
}

Known-mono :
    (w : ℕ) (P Q : ℕ → Type 0) (o : Option Window)
    → ((s : ℕ) → P s → Q s)
    → Known w P o
    → Known w Q o
Known-mono w P Q none f h = tt
Known-mono w P Q (some win) f h = (h.0, f _ h.1, λ d l on. f _ (h.2 d l on))

pub verdict-check :
    (d : Deduplicator) (c seq : ℕ) (calls : List Call)
    → (is_duplicate (run d calls) c seq).0
      ≡ (check d.window_size (client_state (run d calls) c) seq).0
unfolding is_duplicate
verdict-check d c seq calls = rw (window_size-run d calls)

module _ (d : Deduplicator) (none_yet : d.clients ≡ []) (size : IsWindowSize d.window_size) where
  client_state_new : (c : ℕ) → client_state d c ≡ new_client d.window_size
  unfolding client_state lookup
  client_state_new c = ground (arith, none_yet)

  pub run-Refined :
      (c : ℕ) (calls : List Call)
      → AreWords calls
      → Refined d.window_size (client_state (run d calls) c) (view d.window_size c calls)
  unfolding view
  run-Refined c [] h = unfold run in rw (client_state_new c) (new_client-IsFresh d.window_size size)
  run-Refined c (packet j seq ∷ calls) h = elim (Bool-cases (j == c)) [
    | inl hit ↦
        rw (state-packet d j seq c calls, hit)
          (check-Agree size (client_state (run d calls) c) seq h.0 (view d.window_size c calls)
            (run-Refined c calls h.1)).1
    | inr miss ↦ rw (state-packet d j seq c calls, miss) (run-Refined c calls h.1)
  ]
  run-Refined c (restart j ∷ calls) h = elim (Bool-cases (j == c)) [
    | inl hit ↦ rw (state-restart d j c calls, hit) (new_client-IsFresh d.window_size size)
    | inr miss ↦ rw (state-restart d j c calls, miss) (run-Refined c calls h)
  ]

  -- What the window of a client holds is among the client's packets since its last reset.
  pub run-Known :
      (c : ℕ) (calls : List Call)
      → AreWords calls
      → Known d.window_size (λ seq. received c seq calls ≡ true) (view d.window_size c calls)
  unfolding view received
  run-Known c [] h = tt
  run-Known c (packet j seq ∷ calls) h = elim (Bool-cases (j == c)) [
    | inl hit ↦ rw hit (
        check-Known size (client_state (run d calls) c)
          (λ s. (true && seq == s || received c s calls) ≡ true) seq (view d.window_size c calls)
          h.0 (run-Refined c calls h.1)
          (Known-mono d.window_size _ _ (view d.window_size c calls) (λ s k. ground arith)
            (run-Known c calls h.1))
          (ground arith))
    | inr miss ↦ rw miss (run-Known c calls h.1)
  ]
  run-Known c (restart j ∷ calls) h = elim (Bool-cases (j == c)) [
    | inl hit ↦ rw hit tt
    | inr miss ↦ rw miss (run-Known c calls h)
  ]
