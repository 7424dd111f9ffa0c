-- ===== src/Server/Cleanup.antt =====
-- cleanup of internal/server/server.go: expired addresses, and sessions with none left.
pub mod Expiry
use mpfpv.Prelude.{
  ℕ, ◌+◌, List, [], ◌∷◌, Bool, true, false, not, ◌&&◌, Option, none, some, ◌==◌, ltb, if◌then◌else◌,
  nat_eq,
}
use mpfpv.Prelude.Map.{Map, delete}
use mpfpv.Protocol.Dedup.{reset}
use mpfpv.Server.State.{Addr, AddrInfo, ClientSession, Server}

-- now.Sub(last) > timeout
abbrev is_expired : ℕ → ℕ → ℕ → Bool
is_expired now timeout last = ltb (last + timeout) now

unfoldable pub drop_expired : ℕ → ℕ → Map Addr AddrInfo → Map Addr AddrInfo
drop_expired now timeout [] = []
drop_expired now timeout ((key, ai) ∷ rest) =
    let kept = drop_expired now timeout rest in
    if is_expired now timeout ai.last_seen then kept else (key, ai) ∷ kept

abbrev pub is_empty : Map Addr AddrInfo → Bool
is_empty [] = true
is_empty (a ∷ rest) = false

abbrev pub prune : ℕ → ℕ → ClientSession → ClientSession
prune now addr_timeout session = record session {
  addrs = drop_expired now addr_timeout session.addrs;
}

-- A session goes when no address is left and it has timed out.
abbrev pub is_gone : ℕ → ℕ → ClientSession → Bool
is_gone now client_timeout session =
    is_empty session.addrs && is_expired now client_timeout session.last_seen

unfoldable pub keep_sessions : ℕ → ℕ → ℕ → Map ℕ ClientSession → Map ℕ ClientSession
keep_sessions now addr_timeout client_timeout [] = []
keep_sessions now addr_timeout client_timeout ((client_id, session) ∷ rest) =
    let kept = keep_sessions now addr_timeout client_timeout rest in
    let pruned = prune now addr_timeout session in
    if is_gone now client_timeout pruned then kept else (client_id, pruned) ∷ kept

-- The removed clients, with the addresses that they had.
unfoldable pub expired_sessions : ℕ → ℕ → ℕ → Map ℕ ClientSession → List (ℕ × ℕ)
expired_sessions now addr_timeout client_timeout [] = []
expired_sessions now addr_timeout client_timeout ((client_id, session) ∷ rest) =
    let more = expired_sessions now addr_timeout client_timeout rest in
    if is_gone now client_timeout (prune now addr_timeout session)
    then (client_id, session.virtual_ip) ∷ more
    else more

unfoldable pub forget : Server → List (ℕ × ℕ) → Server
forget s [] = s
forget s ((client_id, ip) ∷ rest) =
    forget (record s { route_table = delete ip s.route_table; dedup = reset s.dedup client_id })
      rest

unfoldable pub cleanup : ℕ → Server → Server
cleanup now s =
    let kept = keep_sessions now s.addr_timeout s.client_timeout s.sessions in
    forget (record s { sessions = kept })
      (expired_sessions now s.addr_timeout s.client_timeout s.sessions)
