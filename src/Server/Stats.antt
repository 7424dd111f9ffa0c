-- ===== src/Server/Stats.antt =====
-- GetServerStats of internal/server/webapi.go.
use mpfpv.Prelude.{ℕ, suc, ◌+◌, [], ◌∷◌, Bool, ltb, if◌then◌else◌, length, nat_eq}
use mpfpv.Prelude.Map.{Map}
use mpfpv.Server.State.{ClientSession, Server}

pub record ServerStats : Type 0 where
  pub rx_bytes : ℕ
  pub tx_bytes : ℕ
  pub device_count : ℕ
  pub online_count : ℕ

-- now.Sub(sess.LastSeen) < s.clientTimeout
abbrev pub is_online : ℕ → ℕ → ClientSession → Bool
is_online now timeout session = ltb now (session.last_seen + timeout)

count_online : ℕ → ℕ → Map ℕ ClientSession → ℕ
count_online now timeout [] = 0
count_online now timeout ((client_id, session) ∷ rest) =
    let n = count_online now timeout rest in if is_online now timeout session then suc n else n

get_server_stats : ℕ → Server → ServerStats
get_server_stats now s = record {
  rx_bytes = s.total_rx;
  tx_bytes = s.total_tx;
  device_count = length s.ip_pool;
  online_count = count_online now s.client_timeout s.sessions;
}
