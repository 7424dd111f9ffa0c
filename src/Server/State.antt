-- ===== src/Server/State.antt =====
-- The state of internal/server/server.go and the calls that it makes to the outside. An IPv4 address
-- (net.IP of four bytes, [4]byte) is the number that its bytes spell; time is a number of the unit of
-- the timeouts. Locks and logging are left out.
use mpfpv.Prelude.{ℕ, ◌≡◌, ◌↔◌, arith, List, Bool, true, ◌&&◌, Option, ◌==◌, Eq}
use mpfpv.Prelude.Map.{Map}
use mpfpv.Protocol.Dedup.{Deduplicator}

-- A *net.UDPAddr; the key `from.String()` tells two apart exactly when they differ.
pub record Addr : Type 0 where
  pub host : ℕ
  pub port : ℕ

abbrev pub addr_beq : Addr → Addr → Bool
addr_beq a b = a.host == b.host && a.port == b.port

pub addr_beq_iff : (a b : Addr) → (addr_beq a b ≡ true) ↔ (a ≡ b)
addr_beq_iff a b = (λ h. ground arith, λ h. ground arith)

instance abbrev pub addr_eq : Eq Addr
addr_eq = record { beq = addr_beq; beq_iff = addr_beq_iff }

pub record AddrInfo : Type 0 where
  pub addr : Addr
  pub last_seen : ℕ
  pub rx_bytes : ℕ
  pub tx_bytes : ℕ
  pub nic_name : List ℕ
  pub nic_rtt_ms : ℕ
  pub nic_tx_bytes : ℕ
  pub nic_rx_bytes : ℕ

pub record ClientSession : Type 0 where
  pub client_id : ℕ
  pub virtual_ip : ℕ
  pub prefix_len : ℕ
  pub send_mode : ℕ
  pub reply_port : ℕ
  pub device_name : List ℕ
  pub addrs : Map Addr AddrInfo
  pub last_seen : ℕ
  pub last_data_addr : Option Addr
  pub rx_bytes : ℕ
  pub tx_bytes : ℕ

-- A *net.IPNet of IPv4: the network address, and the ones of the mask.
pub record Subnet : Type 0 where
  pub base : ℕ
  pub ones : ℕ

-- `tun_available` is `tunDev != nil`; `mtu` is cfg.Server.MTU.
pub record Server : Type 0 where
  pub sessions : Map ℕ ClientSession
  pub route_table : Map ℕ ℕ
  pub dedup : Deduplicator
  pub team_key_hash : List ℕ
  pub seq : ℕ
  pub total_rx : ℕ
  pub total_tx : ℕ
  pub client_timeout : ℕ
  pub addr_timeout : ℕ
  pub server_virtual_ip : ℕ
  pub tun_available : Bool
  pub prefix_len : ℕ
  pub mtu : ℕ
  pub ip_pool : Map ℕ ℕ
  pub ip_pool_names : Map ℕ (List ℕ)
  pub subnet : Option Subnet

-- A call to the outside: WriteToUDP, a write to the TUN device, and saveIPPool.
pub data Effect : Type 0 where
  udp : Addr → List ℕ → Effect
  tun_write : List ℕ → Effect
  save_pool : Map ℕ ℕ → Map ℕ (List ℕ) → Effect

abbrev pub Step : Type 0
Step = Server × List Effect
