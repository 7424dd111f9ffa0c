-- ===== src/Tests/Client.antt =====
-- Runs of internal/client/client.go: a checksum, and the rounds of a new client.
use mpfpv.Prelude.{
  ℕ, ◌≡◌, ◌≤◌, ◌+◌, refl, arith, List, [], ◌∷◌, true, false, Option, none, some, take, drop,
}
use mpfpv.Prelude.Outcome.{returns}
use mpfpv.Protocol.Packet.Headers.{AreBytes}
use mpfpv.Transport.Paths.{Sender}
use mpfpv.Client.Checksum.{fold_carry, fold_rounds, recalc_ipv4_checksum}
use mpfpv.Client.Checksum.Folding.{fold_carry_ends}
use mpfpv.Client.Checksum.Verified.{IsVerified, recalc_ipv4_checksum-IsVerified}
use mpfpv.Client.Running.{World, Event, initial, tick, datagram, tun_packet, send_call, run}
use mpfpv.Client.Startup.{Sockets, set_up}
use mpfpv.Client.Startup.Lifetime.{set_up-run-Returns}
use mpfpv.Transport.Starting.{new_sender, start_sender}
use mpfpv.Transport.Changes.{InterfaceInfo}
use mpfpv.Prelude.Outcome.{ok}
use mpfpv.Client.State.{Client, ClientEffect}
use mpfpv.Protocol.Dedup.{new_deduplicator}
use mpfpv.Protocol.Dedup.Sound.{IsSound}
use mpfpv.Client.Running.Safety.{Binds, AllBind}
use mpfpv.Tests.Transport.{slow, wifi, sender}
use mpfpv.Tests.Config.{config, client, hash, sha256, resolves, made}

-- From 10.99.0.2 to 10.99.0.1, with a wrong checksum.
abbrev pub packet : List ℕ
packet = 0x45 ∷ 0 ∷ 0 ∷ 20 ∷ 0 ∷ 0 ∷ 0 ∷ 0 ∷ 64 ∷ 6 ∷ 1 ∷ 2 ∷ 10 ∷ 99 ∷ 0 ∷ 2 ∷ 10 ∷ 99 ∷ 0 ∷ 1 ∷ []

pub packet-AreBytes : AreBytes packet
packet-AreBytes = ground arith

fold_carry_ends_example :
    (fold_carry fold_rounds 0x2ffff ≤ 0xffff)
    × (fold_carry (3 + fold_rounds) 0x2ffff ≡ fold_carry fold_rounds 0x2ffff)
fold_carry_ends_example = fold_carry_ends 3 0x2ffff (omega arith)

recalc_ipv4_checksum-IsVerified_example :
    (b' : List ℕ) × (recalc_ipv4_checksum packet ≡ returns b')
    × IsVerified b'
    × (take 10 b' ≡ take 10 packet)
    × (drop 12 b' ≡ drop 12 packet)
recalc_ipv4_checksum-IsVerified_example =
    recalc_ipv4_checksum-IsVerified packet packet-AreBytes (omega arith) (omega arith)

abbrev world : World
world = record {
  write_ok = λ name. true;
  conn_ok = true;
  tun_ok = λ ip prefix_len. true;
  can_bind = λ name. true;
  can_bind_addr = λ addr name. false;
  server_is_ipv4 = true;
}

abbrev paths : Option Sender
paths = some (record sender { paths = (wifi, slow) ∷ [] })

abbrev events : List (World × ℕ × Event)
events =
    (world, 5, initial)
    ∷ (world, 10, tick)
    ∷ (
      world,
      20,
      datagram (0x12 ∷ 0 ∷ 0 ∷ 0 ∷ 0 ∷ 0 ∷ 0 ∷ 0 ∷ 10 ∷ 99 ∷ 0 ∷ 2 ∷ 24 ∷ 0 ∷ 5 ∷ 0 ∷ []) wifi,
    )
    ∷ (world, 30, tun_packet packet)
    ∷ (world, 40, send_call (1 ∷ []))
    ∷ []

binds : Binds world
binds = record { binds = λ name. refl }

all_bind : AllBind events
all_bind = (binds, (binds, (binds, (binds, (binds, tt)))))

-- The interface of the path, and a client that starts with it.
abbrev nic : InterfaceInfo
nic = record { name = wifi; addrs = (10 ∷ 0 ∷ 0 ∷ 7 ∷ []) ∷ []; addrs6 = []; is_up = true }

abbrev sockets : Sockets
sockets = record {
  bind_addrs = none;
  can_listen_on = λ addr. true;
  can_listen = true;
  is_loopback = false;
  can_listen6 = true;
  can_listen4 = true;
  recv_port = 9000;
  scanned = (wifi, nic) ∷ [];
  server_is_ipv4 = true;
  can_bind_addr = λ addr name. true;
}

abbrev started_client : Client
started_client = record client {
  multipath =
      start_sender true (λ addr name. true) true true 5 sockets.scanned
        (new_sender client.send_mode);
  recv_port = 9000;
}

started : set_up sockets 5 [] false client ≡ ok started_client
unfolding set_up start_sender
started = refl

set_up-run-Returns_example :
    (after : Client) × (effects : List ClientEffect) × (run started_client events
      ≡ returns (after, effects))
    × IsSound after.dedup
set_up-run-Returns_example =
    set_up-run-Returns hash (3 ∷ []) sha256 resolves [] config client started_client sockets 5 []
      false events made (unfold new_deduplicator in omega arith)
      (unfold new_deduplicator in omega arith) started all_bind
