-- ===== src/Client/Running/Invariant.antt =====
-- What the client of internal/client/client.go keeps so that no step of it panics, and what it sends
-- under that.
use mpfpv.Prelude.{
  ℕ, ◌≡◌, ◌≤◌, ◌⊎◌, refl, arith, List, ◌++◌, replicate, Bool, true, false, not, ◌&&◌, Option, none,
  some, Bool-cases, inl, inr, length, ◌==◌, if◌then◌else◌, bytes_beq,
}
use mpfpv.Prelude.Outcome.{Run, returns, panics, ◌>>=◌, Returns}
use mpfpv.Protocol.Dedup.Sound.{IsSound}
use mpfpv.Transport.Paths.{Sender}
use mpfpv.Transport.Open.{AllOpen, AllOpen-send, AllOpen-send_all_heartbeat}
use mpfpv.Client.State.{Client, ClientEffect, ClientStep, ipv4_zero}
use mpfpv.Client.Checksum.Total.{length-put, recalc_ipv4_checksum-Returns}
use mpfpv.Client.Sending.{
  to_server, to_server_over, heartbeat_over, tun_read, rewrite_source, is_dropped, next_seq,
  header_of,
}
use mpfpv.Protocol.Packet.{encode_header, header_size, type_data}

abbrev pub OpenPaths : Option Sender → Type 0
OpenPaths none = Unit
OpenPaths (some m) = AllOpen m.paths

-- The channel `tunReady` is open as long as the client is not registered, and the channels of the
-- paths are open. No index of the deduplicator is outside its bitmap.
pub record IsRunnable (c : Client) : Type 0 where
  pub ready : (c.registered ≡ true) ⊎ (c.tun_ready_closed ≡ false)
  pub paths : OpenPaths c.multipath
  pub window : IsSound c.dedup

-- A step that returns, to a state that is well formed again.
abbrev pub GoesOn : Run ClientStep → Type 0
GoesOn panics = ⊥
GoesOn (returns (c, effects)) = IsRunnable c

pub GoesOn-bind :
    (r : Run ClientStep) (f : ClientStep → Run ClientStep)
    → GoesOn r
    → ((c : Client) (effects : List ClientEffect) → IsRunnable c → GoesOn (f (c, effects)))
    → GoesOn (r >>= f)
GoesOn-bind panics f g next = g
GoesOn-bind (returns (c, effects)) f g next = next c effects g

pub GoesOn-if :
    (b : Bool) (r r' : Run ClientStep) → GoesOn r → GoesOn r' → GoesOn (if b then r else r')
GoesOn-if true r r' yes' no' = yes'
GoesOn-if false r r' yes' no' = no'

pub GoesOn-Returns : (r : Run ClientStep) → GoesOn r → Returns r
GoesOn-Returns panics g = absurd g
GoesOn-Returns (returns s) g = (s, refl)

rewrite_source-Returns :
    (c : Client) (packet : List ℕ) → 20 ≤ length packet → Returns (rewrite_source c packet)
unfolding rewrite_source
rewrite_source-Returns c packet h =
    elim (Bool-cases (length c.virtual_ip == 4 && not (bytes_beq c.virtual_ip ipv4_zero))) [
      | inl assigned ↦
          rw assigned
            (recalc_ipv4_checksum-Returns _ (omega (arith, length-put packet 12 c.virtual_ip)))
      | inr unset ↦ rw unset (packet, refl)
    ]

module _ (write_ok : List ℕ → Bool) (conn_ok : Bool) where
  pub to_server_over-IsRunnable :
      (c : Client) (bytes : List ℕ) (o : Option Sender)
      → IsRunnable c
      → OpenPaths o
      → IsRunnable (to_server_over write_ok conn_ok c bytes o).0.0
  to_server_over-IsRunnable c bytes none ok' open' = ok'
  to_server_over-IsRunnable c bytes (some m) ok' open' = record {
    ready = ok'.ready;
    paths = AllOpen-send write_ok bytes m open';
    window = ok'.window;
  }

  pub heartbeat_over-IsRunnable :
      (c : Client) (bytes suffix : List ℕ) (o : Option Sender)
      → IsRunnable c
      → OpenPaths o
      → IsRunnable (heartbeat_over write_ok conn_ok c bytes suffix o).0.0
  heartbeat_over-IsRunnable c bytes suffix none ok' open' = ok'
  heartbeat_over-IsRunnable c bytes suffix (some m) ok' open' = record {
    ready = ok'.ready;
    paths = AllOpen-send_all_heartbeat write_ok bytes m.paths open';
    window = ok'.window;
  }

  pub tun_read-GoesOn :
      (c : Client) (packet : List ℕ) → IsRunnable c → GoesOn (tun_read write_ok conn_ok c packet)
  unfolding tun_read to_server
  tun_read-GoesOn c packet ok' = elim (Bool-cases (is_dropped packet)) [
    | inl dropped ↦ rw dropped ok'
    | inr kept ↦
        let (payload, e) = rewrite_source-Returns c packet (ground (arith, kept)) in
        rw kept (
          rw e (
            to_server_over-IsRunnable (next_seq c)
              (encode_header (replicate header_size 0) (header_of c type_data) ++ payload)
              c.multipath (record { ready = ok'.ready; paths = ok'.paths; window = ok'.window })
              ok'.paths))
  ]
