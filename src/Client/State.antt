-- ===== src/Client/State.antt =====
-- The state of internal/client/client.go and its construction. Strings are their bytes, an address is
-- the bytes of a net.IP, and time a number of nanoseconds; the locks are left out. Parameters stand
-- for the FNV-1a hash, SHA-256, the machine's ID and the host name.
pub mod Ids
use mpfpv.Prelude.{
  ℕ, ◌+◌, ◌%◌, List, [], ◌∷◌, ◌++◌, Bool, true, false, Option, none, some, if◌then◌else◌, bytes_beq,
  ◌==◌,
}
use mpfpv.Prelude.Int.{ℤ, pos, negsuc}
use mpfpv.Prelude.Words.{u16, u32}
use mpfpv.Prelude.Outcome.{Result, ok, err}
use mpfpv.Protocol.Dedup.{Deduplicator, new_deduplicator, default_window_size}
use mpfpv.Protocol.Packet.{send_mode_redundant, send_mode_failover, compute_team_key_hash}
use mpfpv.Transport.Paths.{Sender}
use mpfpv.Config.{Config, ClientConfig, failover_name}

-- `tun_dev` is `tunDev != nil`, `tun_ready_closed` is that the channel `tunReady` is closed, and
-- `multipath` is `none` in the mode with one socket. `recv_port` is the port of the sender's own
-- receive socket.
pub record Client : Type 0 where
  pub client_id : ℕ
  pub dedup : Deduplicator
  pub team_key_hash : List ℕ
  pub virtual_ip : List ℕ
  pub prefix_len : ℕ
  pub server_mtu : ℕ
  pub send_mode : ℕ
  pub device_name : List ℕ
  pub seq : ℕ
  pub registered : Bool
  pub tun_dev : Bool
  pub tun_ready_closed : Bool
  pub multipath : Option Sender
  pub recv_port : ℕ
  pub last_heartbeat_sent : Option ℕ
  pub virtual_path_name : List ℕ
  pub last_rtt : ℕ

-- A call to the outside: a write on the socket of a path or on the single socket, both to the
-- server, a write to the TUN device, and its creation with an address and a prefix length.
pub data ClientEffect : Type 0 where
  path_udp : List ℕ → List ℕ → ClientEffect
  conn_udp : List ℕ → ClientEffect
  tun_write : List ℕ → ClientEffect
  create_tun : List ℕ → ℕ → ClientEffect

abbrev pub ClientStep : Type 0
ClientStep = Client × List ClientEffect

abbrev pub ipv4_zero : List ℕ
ipv4_zero = 0 ∷ 0 ∷ 0 ∷ 0 ∷ []

pub data NewError : Type 0 where
  section_missing resolve_failed : NewError

abbrev mode_of : List ℕ → ℕ
mode_of name = if bytes_beq name failover_name then send_mode_failover else send_mode_redundant

-- The device's name: that of the configuration, or the host's.
abbrev pub device_name_of : List ℕ → List ℕ → List ℕ
device_name_of hostname [] = hostname
device_name_of hostname (c ∷ cs) = c ∷ cs

-- `dedupWindow <= 0` stands for the default.
abbrev pub window_of : ℤ → ℤ
window_of (pos n) = if n == 0 then pos default_window_size else pos n
window_of (negsuc n) = pos default_window_size

module _ (fnv32a : List ℕ → ℕ) (machine_id : List ℕ) where
  unfoldable pub stable_client_id : List ℕ → ℕ
  stable_client_id name = u16 (u16 (u32 (fnv32a (name ++ machine_id)) % 64900) + 100)

  abbrev pub client_id_of : ClientConfig → List ℕ → ℕ
  client_id_of cc name = if cc.client_id == 0 then stable_client_id name else cc.client_id

  module _ (sha256 : List ℕ → List ℕ) (resolves : List ℕ → Bool) (hostname : List ℕ) where
    abbrev pub start : List ℕ → ClientConfig → Client
    start team_key cc =
        let name = device_name_of hostname cc.device_name in
        record {
          client_id = client_id_of cc name;
          dedup = new_deduplicator (window_of cc.dedup_window);
          team_key_hash = compute_team_key_hash sha256 team_key;
          virtual_ip = ipv4_zero;
          prefix_len = 0;
          server_mtu = 0;
          send_mode = mode_of cc.send_mode;
          device_name = name;
          seq = 0;
          registered = false;
          tun_dev = false;
          tun_ready_closed = false;
          multipath = none;
          recv_port = 0;
          last_heartbeat_sent = none;
          virtual_path_name = [];
          last_rtt = 0;
        }

    abbrev pub new_section : List ℕ → Option ClientConfig → Result NewError Client
    new_section team_key none = err section_missing
    new_section team_key (some cc) =
        if resolves cc.server_addr then ok (start team_key cc) else err resolve_failed

    unfoldable pub new : Config → Result NewError Client
    new cfg = new_section cfg.team_key cfg.client
