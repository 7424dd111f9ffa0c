-- ===== src/Protocol/Dedup/Clients.antt =====
-- The deduplicator of all clients, over histories of calls.
pub mod Tracks
pub mod Verdicts
use mpfpv.Prelude.{
  ℕ, suc, ◌+◌, ◌%◌, ◌/◌, ◌*◌, ◌^◌, ◌<◌, ◌≤◌, ◌≡◌, ◌≢◌, refl, sym, ◌∙◌, ap, arith, List, [], ◌∷◌,
  Bool, true, false, Option, none, some, ◌==◌, ◌&&◌, ◌||◌, if◌then◌else◌, Bool-cases, inl, inr,
  nat_eq,
}
use mpfpv.Prelude.Map.{lookup-insert, lookup-delete}
use mpfpv.Protocol.Dedup.{Deduplicator, client_state, new_client, check, is_duplicate, reset}

pub data Call : Type 0 where
  packet : ℕ → ℕ → Call
  restart : ℕ → Call

abbrev pub step : Deduplicator → Call → Deduplicator
step d (packet client_id seq) = (is_duplicate d client_id seq).1
step d (restart client_id) = reset d client_id

-- The latest call stands first.
unfoldable pub run : Deduplicator → List Call → Deduplicator
run d [] = d
run d (call ∷ earlier) = step (run d earlier) call

pub run-packet :
    (d : Deduplicator) (calls : List Call) (c seq : ℕ)
    → run d (packet c seq ∷ calls) ≡ (is_duplicate (run d calls) c seq).1
unfolding run
run-packet d calls c seq = refl

-- Whether the client's packet `seq` is among the calls since its last reset.
unfoldable pub received : ℕ → ℕ → List Call → Bool
received client_id seq [] = false
received client_id seq (packet c s ∷ earlier) =
    (c == client_id && s == seq) || received client_id seq earlier
received client_id seq (restart c ∷ earlier) =
    let rest = received client_id seq earlier in if c == client_id then false else rest

-- Sequence numbers are of 32 bits.
abbrev pub AreWords : List Call → Type 0
AreWords [] = Unit
AreWords (packet c s ∷ calls) = (s < 2 ^ 32) × AreWords calls
AreWords (restart c ∷ calls) = AreWords calls

client_state-is_duplicate :
    (d : Deduplicator) (c j seq : ℕ)
    → client_state (is_duplicate d c seq).1 j
      ≡ (if c == j then (check d.window_size (client_state d c) seq).1 else client_state d j)
unfolding client_state is_duplicate
client_state-is_duplicate d c j seq =
    ground (arith, lookup-insert c j (check d.window_size (client_state d c) seq).1 d.clients)

client_state-reset :
    (d : Deduplicator) (c j : ℕ)
    → client_state (reset d c) j ≡ (if c == j then new_client d.window_size else client_state d j)
unfolding client_state reset
client_state-reset d c j = ground (arith, lookup-delete c j d.clients)

pub window_size-run :
    (d : Deduplicator) (calls : List Call) → (run d calls).window_size ≡ d.window_size
unfolding run is_duplicate reset
window_size-run d [] = refl
window_size-run d (packet c s ∷ calls) = window_size-run d calls
window_size-run d (restart c ∷ calls) = window_size-run d calls

-- A client's state after a call, by the call.
pub state-packet :
    (d : Deduplicator) (j seq c : ℕ) (calls : List Call)
    → client_state (run d (packet j seq ∷ calls)) c ≡ (
        if j == c
        then (check d.window_size (client_state (run d calls) c) seq).1
        else client_state (run d calls) c)
unfolding run
state-packet d j seq c calls =
    rw (client_state-is_duplicate (run d calls) j c seq) (ground (arith, window_size-run d calls))

pub state-restart :
    (d : Deduplicator) (j c : ℕ) (calls : List Call)
    → client_state (run d (restart j ∷ calls)) c
      ≡ (if j == c then new_client d.window_size else client_state (run d calls) c)
unfolding run
state-restart d j c calls =
    rw (client_state-reset (run d calls) j c) (ground (arith, window_size-run d calls))
