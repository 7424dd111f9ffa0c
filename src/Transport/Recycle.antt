-- ===== src/Transport/Recycle.antt =====
-- CheckAndRecycleStalePaths and recyclePath of internal/transport/multipath.go. Whether a new socket
-- can be bound to an interface is a parameter.
pub mod Closed
pub mod Stuck
use mpfpv.Prelude.{
  ℕ, ◌+◌, ◌*◌, List, [], ◌∷◌, Bool, true, false, ◌&&◌, Option, none, some, ltb, leb, if◌then◌else◌,
  bytes_beq, bytes_eq,
}
use mpfpv.Prelude.Map.{Map, lookup, insert}
use mpfpv.Prelude.Outcome.{Run, returns, panics, ◌>>=◌, ◌>>◌}
use mpfpv.Transport.Paths.{Sender, NetPath, PathStatus, active, suspect, down, second, is_down}

abbrev path_stale_timeout : ℕ
path_stale_timeout = 5 * second

abbrev recycle_min_interval : ℕ
recycle_min_interval = 10 * second

abbrev pub recycle_max_attempts : ℕ
recycle_max_attempts = 3

abbrev recycle_backoff_duration : ℕ
recycle_backoff_duration = 60 * second

-- now.Sub(t) > d, which is true of a time that is not set.
abbrev is_past : ℕ → ℕ → Option ℕ → Bool
is_past now d none = true
is_past now d (some t) = ltb (t + d) now

-- What the check finds of one path: nothing to do, no attempts left, or a stale socket.
pub data Check : Type 0 where
  keep mark_down stale : Check

unfoldable pub check_path : ℕ → NetPath → Check
check_path now p =
    if is_down p.status
    then (if leb recycle_max_attempts p.recycle_count
          && is_past now recycle_backoff_duration p.last_recycled
        then stale
        else keep)
    else if leb now (p.last_recv + path_stale_timeout)
    then keep
    else if leb recycle_max_attempts p.recycle_count
    then mark_down
    else if is_past now recycle_min_interval p.last_recycled
    then stale
    else keep

abbrev pub after_check : Check → NetPath → NetPath
after_check keep p = p
after_check mark_down p = record p { status = down }
after_check stale p = p

abbrev pub add_stale : Check → List ℕ → List (List ℕ) → List (List ℕ)
add_stale keep name names = names
add_stale mark_down name names = names
add_stale stale name names = name ∷ names

unfoldable pub check_paths : ℕ → Map (List ℕ) NetPath → Map (List ℕ) NetPath × List (List ℕ)
check_paths now [] = ([], [])
check_paths now ((name, p) ∷ rest) =
    let (paths, names) = check_paths now rest in
    ((name, after_check (check_path now p) p) ∷ paths, add_stale (check_path now p) name names)

module _ (can_bind : List ℕ → Bool) where
  abbrev pub renew : ℕ → List ℕ → NetPath → NetPath
  renew now name p =
      if can_bind name
      then record p {
        status = active;
        last_recycled = some now;
        recycle_count = p.recycle_count + 1;
        closed = false;
      }
      else record p { status = down; closed = true }

  -- close(oldClosed): closing a closed channel panics.
  unfoldable pub recycle_path : ℕ → Sender → List ℕ → Run Sender
  recycle_path now m name = elim (lookup name m.paths) [
    | none ↦ returns m
    | some p ↦
        if p.closed
        then panics
        else returns (record m { paths = insert name (renew now name p) m.paths })
  ]

  unfoldable pub recycle_all : ℕ → List (List ℕ) → Sender → Run Sender
  recycle_all now [] m = returns m
  recycle_all now (name ∷ names) m = do m' ← recycle_path now m name; recycle_all now names m'

  unfoldable pub check_and_recycle : ℕ → Sender → Run Sender
  check_and_recycle now m =
      let (paths, names) = check_paths now m.paths in
      recycle_all now names (record m { paths = paths })
