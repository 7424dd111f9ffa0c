-- ===== src/Transport/Output.antt =====
-- Send, SendAll and SendAllHeartbeat of internal/transport/multipath.go. Whether a write on a path
-- succeeds is a parameter; the datagrams are those handed to the sockets, with their paths.
pub mod Copies
use mpfpv.Prelude.{
  ℕ, suc, ◌+◌, ◌/◌, List, [], ◌∷◌, ◌++◌, Bool, true, false, not, Option, none, some, ◌==◌,
  if◌then◌else◌, length, bytes_eq,
}
use mpfpv.Prelude.Map.{Map, lookup, insert}
use mpfpv.Prelude.Words.{u16, u32, u64}
use mpfpv.Protocol.Packet.{PathRtt, path_suffix, send_mode_failover}
use mpfpv.Transport.Paths.{Sender, NetPath, PathStatus, active, suspect, down, is_down}

pub data SendError : Type 0 where
  no_available_paths all_failed_or_down no_active_path write_failed : SendError

-- The paths after a call, the datagrams, and the error if there is one.
abbrev pub Sent : Type 0
Sent = Map (List ℕ) NetPath × List (List ℕ × List ℕ) × Option SendError

abbrev pub written : NetPath → List ℕ → NetPath
written p bytes = record p { tx_bytes = u64 (p.tx_bytes + length bytes) }

abbrev pub failed : NetPath → NetPath
failed p = record p { status = suspect }

module _ (write_ok : List ℕ → Bool) where
  -- The paths, the datagrams, and how many of the writes succeeded.
  unfoldable pub send_redundant :
      List ℕ → Map (List ℕ) NetPath → Map (List ℕ) NetPath × List (List ℕ × List ℕ) × ℕ
  send_redundant bytes [] = ([], [], 0)
  send_redundant bytes ((name, p) ∷ rest) =
      let (paths, out, n) = send_redundant bytes rest in
      if is_down p.status
      then ((name, p) ∷ paths, out, n)
      else if write_ok name
      then ((name, written p bytes) ∷ paths, (name, bytes) ∷ out, suc n)
      else ((name, failed p) ∷ paths, (name, bytes) ∷ out, n)

  unfoldable pub first_usable : Map (List ℕ) NetPath → Option (List ℕ × NetPath)
  first_usable [] = none
  first_usable ((name, p) ∷ rest) =
      let later = first_usable rest in if is_down p.status then later else some (name, p)

  unfoldable pub choose : Sender → Option (List ℕ × NetPath)
  choose m = elim (lookup m.active_path m.paths) [
    | some p ↦ some (m.active_path, p)
    | none ↦ first_usable m.paths
  ]

  unfoldable pub send_failover : List ℕ → Sender → Sent
  send_failover bytes m = elim (choose m) [
    | none ↦ (m.paths, [], some no_active_path)
    | some (name, p) ↦
        if write_ok name
        then (insert name (written p bytes) m.paths, (name, bytes) ∷ [], none)
        else (insert name (failed p) m.paths, (name, bytes) ∷ [], some write_failed)
  ]

  abbrev pub send_modes : List ℕ → Sender → Sent
  send_modes bytes m =
      if m.send_mode == send_mode_failover
      then send_failover bytes m
      else (let (paths, out, n) = send_redundant bytes m.paths in
          (paths, out, if n == 0 then some all_failed_or_down else none))

  abbrev pub send_over : List ℕ → Sender → Map (List ℕ) NetPath → Sent
  send_over bytes m [] = ([], [], some no_available_paths)
  send_over bytes m (p ∷ rest) = send_modes bytes m

  unfoldable pub send : List ℕ → Sender → Sent
  send bytes m = send_over bytes m m.paths

  -- A heartbeat with the data of the path on every path that is not down.
  abbrev pub heartbeat_of : List ℕ → List ℕ → NetPath → List ℕ
  heartbeat_of base name p =
      base
      ++ path_suffix (record {
        name = name;
        rtt_ms = u16 (p.rtt / 1000000);
        tx_bytes = u32 p.tx_bytes;
        rx_bytes = u32 p.rx_bytes;
      })

  unfoldable pub send_all_heartbeat : List ℕ → Map (List ℕ) NetPath → Sent
  send_all_heartbeat base [] = ([], [], none)
  send_all_heartbeat base ((name, p) ∷ rest) =
      let (paths, out, last) = send_all_heartbeat base rest in
      let bytes = heartbeat_of base name p in
      if is_down p.status
      then ((name, p) ∷ paths, out, last)
      else if write_ok name
      then ((name, written p bytes) ∷ paths, (name, bytes) ∷ out, last)
      else ((name, failed p) ∷ paths, (name, bytes) ∷ out, some write_failed)

  -- The same packet on every path that is not down; the bytes are not counted here.
  unfoldable pub send_all : List ℕ → Map (List ℕ) NetPath → Sent
  send_all bytes [] = ([], [], none)
  send_all bytes ((name, p) ∷ rest) =
      let (paths, out, last) = send_all bytes rest in
      if is_down p.status
      then ((name, p) ∷ paths, out, last)
      else if write_ok name
      then ((name, p) ∷ paths, (name, bytes) ∷ out, last)
      else ((name, failed p) ∷ paths, (name, bytes) ∷ out, some write_failed)
