-- ===== src/Tests/Dedup.antt =====
-- Runs of internal/protocol/dedup.go with a window of 64.
use Prim.Native.Nat.{◌∣◌}
use mpfpv.Prelude.{◌^◌, ◌≡◌, refl, arith, List, [], ◌∷◌, ◌++◌, true}
use mpfpv.Prelude.Int.{pos}
use mpfpv.Protocol.Dedup.{
  Deduplicator, new_deduplicator, is_duplicate, check, client_state, new_client, start_at, set_bit,
  get_bit, seq_diff, check_diff, slide_to, check_behind, clear_ahead, clear_bits, zero_words,
  clear_bit,
}
use mpfpv.Prelude.Map.{lookup, insert}
use mpfpv.Protocol.Dedup.Window.{receive}
use mpfpv.Protocol.Dedup.Refine.Relation.{IsWindowSize}
use mpfpv.Protocol.Dedup.Clients.{Call, packet, run, received, AreWords}
use mpfpv.Protocol.Dedup.Clients.Tracks.{view}
use mpfpv.Protocol.Dedup.Clients.Verdicts.{
  is_duplicate-eq-receive, dropped-received, redelivery-dropped, StaysCoveredCalls,
}

abbrev small : Deduplicator
small = new_deduplicator (pos 64)

size : IsWindowSize small.window_size
unfolding new_deduplicator
size = record { positive = omega arith; divides = ∣ (2 ^ 26, omega arith) ∣₁; small = omega arith }

abbrev traffic : List Call
traffic = packet 1 3 ∷ packet 2 7 ∷ packet 1 5 ∷ []

abbrev later : List Call
later = packet 1 6 ∷ packet 2 9 ∷ []

words : AreWords traffic
words = (omega arith, (omega arith, (omega arith, tt)))

redelivered : (is_duplicate (run small traffic) 1 3).0 ≡ true
unfolding run is_duplicate check client_state new_client start_at set_bit get_bit seq_diff
    check_diff slide_to check_behind clear_ahead clear_bits zero_words clear_bit new_deduplicator
    lookup insert
redelivered = refl

covered : StaysCoveredCalls (run small (packet 1 4 ∷ traffic)) 1 4 later
unfolding run is_duplicate check client_state new_client start_at set_bit get_bit seq_diff
    check_diff slide_to check_behind clear_ahead clear_bits zero_words clear_bit new_deduplicator
    lookup insert
covered = (
  omega arith,
  λ _. (λ _. omega arith, λ h. absurd (omega (arith, h))),
  (omega arith, λ e. absurd (omega arith), tt),
)

is_duplicate-eq-receive_example :
    (is_duplicate (run small traffic) 1 4).0
    ≡ (receive small.window_size (view small.window_size 1 traffic) 4).0
is_duplicate-eq-receive_example =
    is_duplicate-eq-receive (pos 64) size traffic 1 4 words (omega arith)

dropped-received_example : received 1 3 traffic ≡ true
dropped-received_example =
    dropped-received (pos 64) size traffic 1 3 words (omega arith) redelivered

redelivery-dropped_example : (is_duplicate (run small (later ++ packet 1 4 ∷ traffic)) 1 4).0 ≡ true
redelivery-dropped_example =
    redelivery-dropped (pos 64) size traffic later 1 4 words (omega arith) covered
