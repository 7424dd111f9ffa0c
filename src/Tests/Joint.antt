-- ===== src/Tests/Joint.antt =====
-- A client of internal/client/client.go at a server of internal/server/server.go: it registers, and it
-- sends a packet.
use mpfpv.Prelude.{
  ℕ, ◌≡◌, ◌≢◌, ◌∙◌, sym, ◌+◌, refl, arith, List, [], ◌∷◌, ◌++◌, Bool, true, false, some, inr,
  nat_eq, length,
}
use mpfpv.Prelude.Map.{HasDistinctKeys, lookup}
use mpfpv.Prelude.Outcome.{returns}
use mpfpv.Protocol.Packet.{be32, uint32_at, find_separator, compute_team_key_hash}
use mpfpv.Protocol.Dedup.{new_deduplicator, is_duplicate, check, client_state, new_client}
use mpfpv.Server.State.{Addr, addr_eq, ClientSession, Server, Effect, udp}
use mpfpv.Server.Data.{handle_packet, deliver, inner_dst}
use mpfpv.Client.State.{Client, conn_udp, tun_write, stable_client_id}
use mpfpv.Client.Sending.{send_heartbeat, heartbeat_bytes, tun_read, next_seq}
use mpfpv.Transport.Output.{heartbeat_of}
use mpfpv.Server.Heartbeat.Nics.{IsMoved}
use mpfpv.Tests.Transport.{slow}
use mpfpv.Client.Receiving.{receive}
use mpfpv.Client.Receiving.Acks.{LeavesAddress}
use mpfpv.Joint.Heartbeat.{IsBeating}
use mpfpv.Joint.Rewriting.{IsRewritten}
use mpfpv.Joint.Registration.{send_heartbeat-registers}
use mpfpv.Joint.Paths.{counted, path_data, heartbeat_of-IsMoved}
use mpfpv.Joint.Delivery.{RoutesAs, tun_read-delivered}
use mpfpv.Joint.Relay.{tun_read-relayed}
use mpfpv.Server.Send.Modes.{datagrams, destinations}
use mpfpv.Protocol.Packet.Headers.{AreBytes}
use mpfpv.Tests.Config.{client}
use mpfpv.Tests.Client.{packet, packet-AreBytes}
use mpfpv.Tests.Relay.{relay, laptop, home, mobile, info, base, all_ok}

abbrev paths_ok : List ℕ → Bool
paths_ok name = true

abbrev tun_ok : List ℕ → ℕ → Bool
tun_ok ip prefix_len = true

key : client.team_key_hash ≡ relay.team_key_hash
unfolding compute_team_key_hash
key = refl

beating : IsBeating client
unfolding stable_client_id compute_team_key_hash find_separator
beating = record {
  numbered = record { positive = omega arith; client_id = omega arith; seq = omega arith };
  payload = record { ip = refl; port = omega arith; hash = refl };
  name = refl;
}

send_heartbeat-registers_example :
    (bytes : List ℕ) × (t : Server) × (earlier : List Effect) × (ack : List ℕ)
    × (session : ClientSession) × ((send_heartbeat paths_ok true 7 client).0.1
        ≡ conn_udp bytes ∷ [])
    × (handle_packet all_ok 8 relay bytes home ≡ returns (t, earlier ++ udp home ack ∷ []))
    × (lookup client.client_id t.sessions ≡ some session)
    × LeavesAddress session.virtual_ip session.prefix_len
        (receive tun_ok 9 (send_heartbeat paths_ok true 7 client).0.0 ack)
send_heartbeat-registers_example =
    send_heartbeat-registers all_ok paths_ok true tun_ok 7 8 9 client relay home beating refl refl
      (omega arith) key (inr refl) (omega arith)

-- A client of two NICs that comes back on the second one from another address.
abbrev roaming : ClientSession
roaming = record laptop {
  addrs =
      (home, record (info home) { nic_name = 101 ∷ [] })
      ∷ (mobile, record (info mobile) { nic_name = 119 ∷ [] })
      ∷ [];
}

abbrev reconnected : Server
reconnected = record relay { sessions = (1, roaming) ∷ [] }

abbrev hotel : Addr
hotel = record { host = 167772170; port = 5001 }

roaming-HasDistinctKeys : HasDistinctKeys roaming.addrs
unfolding lookup
roaming-HasDistinctKeys = (refl, (refl, tt))

-- The client of the session that the server has.
abbrev known_client : Client
known_client = record client { client_id = 1; virtual_ip = be32 (base + 2) }

known_client-IsBeating : IsBeating known_client
unfolding stable_client_id compute_team_key_hash find_separator
known_client-IsBeating = record {
  numbered = record { positive = omega arith; client_id = omega arith; seq = omega arith };
  payload = record { ip = refl; port = omega arith; hash = refl };
  name = refl;
}

heartbeat_of-IsMoved_example :
    let bytes = heartbeat_of paths_ok (heartbeat_bytes known_client) (119 ∷ []) slow in
    (t : Server) × (es : List Effect) × (moved : ClientSession) × (handle_packet all_ok 100
        reconnected bytes hotel
      ≡ returns (t, es))
    × (lookup known_client.client_id t.sessions ≡ some moved)
    × IsMoved 100 hotel
        (path_data (119 ∷ []) slow)
        (counted hotel (length bytes) roaming.addrs)
        moved.addrs
heartbeat_of-IsMoved_example =
    heartbeat_of-IsMoved all_ok paths_ok 100 reconnected hotel known_client (119 ∷ []) slow roaming
      known_client-IsBeating refl (omega arith) key (unfold lookup in refl) (inr refl)
      roaming-HasDistinctKeys

fresh : (is_duplicate relay.dedup 1 0).0 ≡ false
unfolding is_duplicate check client_state new_client new_deduplicator lookup
fresh = refl

known : lookup 1 relay.sessions ≡ some laptop
unfolding lookup
known = refl

tun_read-delivered_example :
    (bytes : List ℕ) × (payload : List ℕ) × (t : Server) × (tun_read paths_ok true known_client
        packet
      ≡ returns (next_seq known_client, conn_udp bytes ∷ []))
    × IsRewritten laptop.virtual_ip packet payload
    × (handle_packet all_ok 100 relay bytes home ≡ returns (deliver all_ok t payload bytes))
    × RoutesAs t relay
tun_read-delivered_example =
    tun_read-delivered all_ok paths_ok true 100 known_client relay home laptop packet
      (record { positive = omega arith; client_id = omega arith; seq = omega arith }) refl known
      fresh refl (omega arith) (omega arith)
      (record { bytes = packet-AreBytes; version = refl; long = omega arith; inside = omega arith })

-- A second session, and its route.
abbrev office : ClientSession
office = record laptop { client_id = 2; virtual_ip = base + 3 }

abbrev crossroads : Server
crossroads = record relay {
  sessions = (1, laptop) ∷ (2, office) ∷ [];
  route_table = (base + 2, 1) ∷ (base + 3, 2) ∷ [];
}

-- An IPv4 header from 10.99.0.2 to 10.99.0.3.
abbrev across : List ℕ
across = 0x45 ∷ 0 ∷ 0 ∷ 20 ∷ 0 ∷ 0 ∷ 0 ∷ 0 ∷ 64 ∷ 6 ∷ 1 ∷ 2 ∷ 10 ∷ 99 ∷ 0 ∷ 2 ∷ 10 ∷ 99 ∷ 0 ∷ 3 ∷ []

abbrev office_client : Client
office_client = record client { client_id = 2; virtual_ip = be32 (base + 3); tun_dev = true }

destination : inner_dst across ≡ base + 3
unfolding inner_dst uint32_at
destination = refl

distinct : base + 3 ≢ base + 1
distinct = omega arith

elsewhere : inner_dst across ≢ crossroads.server_virtual_ip
elsewhere e = distinct (sym destination ∙ e)

across-AreBytes : AreBytes across
across-AreBytes = ground arith

first_known : lookup 1 crossroads.sessions ≡ some laptop
unfolding lookup
first_known = refl

second_known : lookup 2 crossroads.sessions ≡ some office
unfolding lookup
second_known = refl

route : lookup (inner_dst across) crossroads.route_table ≡ some 2
unfolding inner_dst uint32_at lookup
route = refl

unseen : (is_duplicate office_client.dedup 1 0).0 ≡ false
unfolding is_duplicate check client_state new_client new_deduplicator lookup
unseen = refl

tun_read-relayed_example :
    (bytes : List ℕ) × (payload : List ℕ) × (t : Server) × (tun_read paths_ok true known_client
        across
      ≡ returns (next_seq known_client, conn_udp bytes ∷ []))
    × (handle_packet all_ok 100 crossroads bytes home
        ≡ returns (t, datagrams all_ok 9801 bytes (destinations office)))
    × (receive tun_ok 101 office_client bytes
        ≡ returns (
          record office_client { dedup = (is_duplicate office_client.dedup 1 0).1 },
          tun_write payload ∷ [],
        ))
    × IsRewritten laptop.virtual_ip across payload
tun_read-relayed_example =
    tun_read-relayed all_ok paths_ok true tun_ok 100 101 known_client office_client crossroads home
      laptop office 2 across
      (record { positive = omega arith; client_id = omega arith; seq = omega arith }) refl
      first_known fresh refl (omega arith) (omega arith)
      (record { bytes = across-AreBytes; version = refl; long = omega arith; inside = omega arith })
      elsewhere route (omega arith) second_known refl unseen
