-- ===== src/Tests/Relay.antt =====
-- Runs of the data path of internal/server/server.go.
use mpfpv.Prelude.{
  ℕ, ◌+◌, ◌*◌, ◌%◌, ◌^◌, ◌≡◌, ◌↔◌, refl, arith, List, [], ◌∷◌, ◌++◌, Bool, true, false, none, some,
  nat_eq,
}
use mpfpv.Prelude.Int.{pos}
use mpfpv.Prelude.Map.{lookup, insert}
use mpfpv.Prelude.Outcome.{returns, panics}
use mpfpv.Prelude.Slices.{index}
use mpfpv.Protocol.Packet.{Header, decode_header}
use mpfpv.Protocol.Dedup.{
  new_deduplicator, is_duplicate, check, client_state, new_client, start_at, set_bit,
}
use mpfpv.Protocol.Dedup.Clients.{run}
use mpfpv.Protocol.Dedup.Refine.Relation.{IsWindowSize}
use mpfpv.Server.State.{Server, tun_write, Addr, AddrInfo, addr_eq, ClientSession}
use mpfpv.Server.Send.{send_to_client}
use mpfpv.Server.Send.Modes.{datagrams, successes, send_to_client-destinations}
use mpfpv.Server.Data.{handle_data, forward_data, deliver, handle_packet, dispatch, count_rx}
use mpfpv.Server.Data.Panics.{IsEmptyData, handle_packet-panics}
use mpfpv.Server.Data.Spoofing.{IsAdmitted, handle_data-IsAdmitted}
use mpfpv.Server.Data.Copies.{handle_packet_copy}
use mpfpv.Server.Data.Counting.{IsCounted}
use mpfpv.Protocol.Dedup.Sound.{IsSound, new-IsSound}

abbrev pub home : Addr
home = record { host = 3232235777; port = 4000 }

abbrev pub mobile : Addr
mobile = record { host = 167772161; port = 5000 }

abbrev pub info : Addr → AddrInfo
info a = record {
  addr = a;
  last_seen = 90;
  rx_bytes = 0;
  tx_bytes = 0;
  nic_name = [];
  nic_rtt_ms = 0;
  nic_tx_bytes = 0;
  nic_rx_bytes = 0;
}

-- 10.99.0.0
abbrev pub base : ℕ
base = 174260224

abbrev pub laptop : ClientSession
laptop = record {
  client_id = 1;
  virtual_ip = base + 2;
  prefix_len = 24;
  send_mode = 0;
  reply_port = 9801;
  device_name = [];
  addrs = (home, info home) ∷ (mobile, info mobile) ∷ [];
  last_seen = 90;
  last_data_addr = none;
  rx_bytes = 0;
  tx_bytes = 0;
}

abbrev pub relay : Server
relay = record {
  sessions = (1, laptop) ∷ [];
  route_table = (base + 2, 1) ∷ [];
  dedup = new_deduplicator (pos 64);
  team_key_hash = 1 ∷ 2 ∷ 3 ∷ 4 ∷ 5 ∷ 6 ∷ 7 ∷ 8 ∷ [];
  seq = 5;
  total_rx = 0;
  total_tx = 0;
  client_timeout = 15;
  addr_timeout = 15;
  server_virtual_ip = base + 1;
  tun_available = true;
  prefix_len = 24;
  mtu = 1300;
  ip_pool = (1, base + 2) ∷ [];
  ip_pool_names = [];
  subnet = none;
}

abbrev pub all_ok : Addr → Bool
all_ok a = true

-- An IPv4 header from 10.99.0.2 to 10.99.0.1.
abbrev inner : List ℕ
inner = 0x45 ∷ 0 ∷ 0 ∷ 20 ∷ 0 ∷ 0 ∷ 0 ∷ 0 ∷ 64 ∷ 6 ∷ 0 ∷ 0 ∷ 10 ∷ 99 ∷ 0 ∷ 2 ∷ 10 ∷ 99 ∷ 0 ∷ 1 ∷ []

abbrev data_header : Header
data_header = record { version = 0x10; type = 0; priority = false; client_id = 1; seq = 9 }

abbrev outer : List ℕ
outer = 0x10 ∷ 0 ∷ 0 ∷ 1 ∷ 0 ∷ 0 ∷ 0 ∷ 9 ∷ []

abbrev after : Server
after = record relay {
  dedup = (is_duplicate relay.dedup 1 9).1;
  sessions =
      (
        1,
        record laptop {
          addrs = (home, record (info home) { last_seen = 100 }) ∷ (mobile, info mobile) ∷ [];
          last_seen = 100;
          last_data_addr = some home;
        },
      )
      ∷ [];
}

handled :
    handle_data all_ok 100 relay data_header inner home (outer ++ inner)
    ≡ returns (after, tun_write inner ∷ [])
unfolding handle_data forward_data deliver is_duplicate check client_state new_client start_at
    set_bit new_deduplicator lookup insert
handled = refl

size : IsWindowSize (new_deduplicator (pos 64)).window_size
unfolding new_deduplicator
size = record { positive = omega arith; divides = ∣ (2 ^ 26, omega arith) ∣₁; small = omega arith }

no_calls : relay.dedup ≡ run (new_deduplicator (pos 64)) []
unfolding run
no_calls = refl

-- The bytes are counted for the session and for its address too.
abbrev taken : Server
taken = record relay {
  dedup = (is_duplicate relay.dedup 1 9).1;
  total_rx = 28;
  sessions =
      (
        1,
        record laptop {
          addrs =
              (home, record (info home) { last_seen = 100; rx_bytes = 28 })
              ∷ (mobile, info mobile)
              ∷ [];
          last_seen = 100;
          last_data_addr = some home;
          rx_bytes = 28;
        },
      )
      ∷ [];
}

taken_once :
    handle_packet all_ok 100 relay (outer ++ inner) home ≡ returns (taken, tun_write inner ∷ [])
unfolding handle_packet decode_header dispatch count_rx handle_data forward_data deliver
    is_duplicate check client_state new_client start_at set_bit new_deduplicator lookup insert
taken_once = refl

handle_packet_copy_example :
    (u : Server) × (handle_packet all_ok 101 taken (outer ++ inner) mobile ≡ returns (u, []))
    × IsCounted taken u 1 mobile 28
    × (u ≡ record taken {
      sessions = u.sessions;
      total_rx = u.total_rx;
      dedup = (is_duplicate taken.dedup 1 9).1;
    })
handle_packet_copy_example =
    handle_packet_copy all_ok (pos 64) [] relay taken data_header (tun_write inner ∷ []) 100 101
      (outer ++ inner) home mobile size tt (omega arith) no_calls (unfold decode_header in refl)
      refl taken_once

sound : IsSound relay.dedup
unfolding new_deduplicator
sound = new-IsSound relay.dedup refl (omega arith) (omega arith)

handle_data-IsAdmitted_example : IsAdmitted relay data_header inner
handle_data-IsAdmitted_example =
    handle_data-IsAdmitted all_ok 100 relay data_header inner home (outer ++ inner) after
      (tun_write inner) [] handled

crash : handle_packet all_ok 100 relay outer home ≡ panics
unfolding handle_packet decode_header dispatch count_rx handle_data forward_data index is_duplicate
    check client_state new_client start_at set_bit new_deduplicator lookup insert
crash = refl

handle_packet-panics_example :
    (handle_packet all_ok 100 relay outer home ≡ panics) ↔ IsEmptyData relay outer
handle_packet-panics_example = handle_packet-panics all_ok 100 relay outer home sound

send_to_client-destinations_example :
    ((send_to_client all_ok relay 1 outer).1 ≡ datagrams all_ok 9801 outer (home ∷ mobile ∷ []))
    × ((send_to_client all_ok relay 1 outer).0.total_tx % 2 ^ 64
        ≡ (0 + successes all_ok (home ∷ mobile ∷ []) * 8) % 2 ^ 64)
send_to_client-destinations_example =
    send_to_client-destinations all_ok relay 1 outer laptop (unfold lookup in refl)
