-- ===== src/Tests/Sessions.antt =====
-- Runs of the heartbeats and of the cleanup of internal/server/server.go.
use mpfpv.Prelude.{ℕ, List, ◌+◌, ◌≡◌, ◌≢◌, refl, arith, inr, [], ◌∷◌, true, false, some, nat_eq}
use mpfpv.Prelude.Map.{lookup}
use mpfpv.Protocol.Packet.{Header, HeartbeatPayload, decode_header, decode_heartbeat}
use mpfpv.Server.State.{addr_eq, Server, Effect}
use mpfpv.Server.Heartbeat.{check_heartbeat}
use mpfpv.Server.Heartbeat.Register.{
  IsRegistered, accept_known-IsRegistered, accept_new-IsRegistered,
}
use mpfpv.Server.Heartbeat.Replies.{IsRefused}
use mpfpv.Server.Data.{handle_packet}
use mpfpv.Server.Data.Counting.{IsCounted}
use mpfpv.Server.Data.Refusals.{handle_packet-IsRefused}
use mpfpv.Prelude.Outcome.{returns}
use mpfpv.Server.Cleanup.{cleanup, drop_expired, prune, is_gone}
use mpfpv.Server.Cleanup.Expiry.{survivor, lookup-cleanup}
use mpfpv.Tests.Relay.{relay, laptop, home, mobile, info, base, all_ok}

abbrev heartbeat : HeartbeatPayload
heartbeat = record {
  virtual_ip = 10 ∷ 99 ∷ 0 ∷ 2 ∷ [];
  prefix_len = 24;
  send_mode = 1;
  reply_port = 9801;
  team_key_hash = 1 ∷ 2 ∷ 3 ∷ 4 ∷ 5 ∷ 6 ∷ 7 ∷ 8 ∷ [];
  device_name = [];
  path_rtts = [];
}

abbrev from_client : ℕ → Header
from_client c = record { version = 0x10; type = 1; priority = false; client_id = c; seq = 3 }

accept_known-IsRegistered_example :
    let (t, es) = check_heartbeat 100 relay (from_client 1) heartbeat mobile in
    (r : IsRegistered 100 1 mobile t es) × (r.session.virtual_ip ≡ base + 2)
accept_known-IsRegistered_example =
    accept_known-IsRegistered 100 relay (from_client 1) heartbeat mobile laptop refl (omega arith)
      (unfold lookup in refl) (inr refl)

abbrev other_ip : HeartbeatPayload
other_ip = record heartbeat { virtual_ip = 10 ∷ 99 ∷ 0 ∷ 3 ∷ [] }

accept_new-IsRegistered_example :
    let (t, es) = check_heartbeat 100 relay (from_client 5) other_ip mobile in
    (r : IsRegistered 100 5 mobile t es) × (r.session.virtual_ip ≢ 0
      → lookup r.session.virtual_ip t.route_table ≡ some 5)
accept_new-IsRegistered_example =
    accept_new-IsRegistered 100 relay (from_client 5) other_ip mobile refl (omega arith)
      (unfold lookup in refl)

-- The datagram of a heartbeat from client 1 that names the address 10.99.0.3.
abbrev refused : List ℕ
refused =
    0x11 ∷ 0 ∷ 0 ∷ 1 ∷ 0 ∷ 0 ∷ 0 ∷ 3 ∷ 10 ∷ 99 ∷ 0 ∷ 3 ∷ 24 ∷ 1 ∷ 38 ∷ 73 ∷ 1 ∷ 2 ∷ 3 ∷ 4 ∷ 5 ∷ 6
    ∷ 7 ∷ 8 ∷ []

handle_packet-IsRefused_example :
    (t : Server) × (es : List Effect) × (handle_packet all_ok 100 relay refused home
      ≡ returns (t, es))
    × IsCounted relay t 1 home 24
    × (t ≡ record relay { sessions = t.sessions; total_rx = t.total_rx; seq = t.seq })
handle_packet-IsRefused_example =
    handle_packet-IsRefused all_ok 100 relay refused home (from_client 1) other_ip
      (unfold decode_header in refl) refl (unfold decode_heartbeat in refl)
      (IsRefused.conflict laptop (unfold lookup in refl) (omega arith) (omega arith))

lookup-cleanup_example :
    lookup 1 (cleanup 100 relay).sessions ≡ survivor 100 15 15 (lookup 1 relay.sessions)
lookup-cleanup_example = lookup-cleanup 100 1 relay (unfold lookup in (refl, tt))

-- Both addresses were last seen at 90, so that they and the session are gone at 200.
all_gone : is_gone 200 15 (prune 200 15 laptop) ≡ true
unfolding drop_expired
all_gone = refl

kept : lookup home (drop_expired 100 15 laptop.addrs) ≡ some (info home)
unfolding drop_expired lookup
kept = refl
