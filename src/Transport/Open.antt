-- ===== src/Transport/Open.antt =====
-- The paths of internal/transport/multipath.go while no channel `closed` is closed: what keeps them so.
pub mod Recycling
use mpfpv.Prelude.{
  ℕ, ◌+◌, ◌≡◌, refl, sym, ◌∙◌, arith, List, [], ◌∷◌, Bool, true, false, Option, none, some, ◌==◌,
  Bool-cases, Option-cases, inl, inr, bytes_beq, bytes_eq,
}
use mpfpv.Prelude.Outcome.{Run, returns, panics, ◌>>=◌, Returns}
use mpfpv.Prelude.Words.{u64}
use mpfpv.Prelude.Map.{Map, lookup, insert, delete}
use mpfpv.Protocol.Packet.{send_mode_failover}
use mpfpv.Transport.Paths.{
  Sender, NetPath, is_down, reselect, select_best, update_rtt, add_sample, count_received,
}
use mpfpv.Transport.Output.{
  send_redundant, choose, first_usable, send_failover, send, send_over, send_all_heartbeat, written,
  failed,
}
use mpfpv.Transport.Changes.{
  InterfaceInfo, remove_path, remove_paths, add_path, add_paths, on_interface_change, new_path,
  local_addr_of,
}
use mpfpv.Transport.Recycle.{
  recycle_path, recycle_all, check_paths, check_and_recycle, renew, Check, after_check, check_path,
  keep, mark_down, stale,
}

-- No channel of a path is closed.
abbrev pub AllOpen : Map (List ℕ) NetPath → Type 0
AllOpen [] = Unit
AllOpen ((name, p) ∷ rest) = (p.closed ≡ false) × AllOpen rest

pub AllOpen-lookup :
    (paths : Map (List ℕ) NetPath) (name : List ℕ) (p : NetPath)
    → AllOpen paths
    → lookup name paths ≡ some p
    → p.closed ≡ false
unfolding lookup
AllOpen-lookup [] name p all e = absurd cc
AllOpen-lookup ((k, q) ∷ paths) name p (first, all) e = elim (Bool-cases (bytes_beq k name)) [
  | inl hit ↦ let same : q ≡ p = ground (arith, hit, e) in ground (arith, same, first)
  | inr miss ↦ AllOpen-lookup paths name p all (ground (arith, miss, e))
]

pub AllOpen-insert :
    (paths : Map (List ℕ) NetPath) (name : List ℕ) (p : NetPath)
    → AllOpen paths
    → p.closed ≡ false
    → AllOpen (insert name p paths)
unfolding insert
AllOpen-insert [] name p all open' = (open', tt)
AllOpen-insert ((k, q) ∷ paths) name p (first, all) open' = elim (Bool-cases (bytes_beq k name)) [
  | inl hit ↦ rw hit (open', all)
  | inr miss ↦ rw miss (first, AllOpen-insert paths name p all open')
]

pub AllOpen-delete :
    (paths : Map (List ℕ) NetPath) (name : List ℕ) → AllOpen paths → AllOpen (delete name paths)
unfolding delete
AllOpen-delete [] name all = tt
AllOpen-delete ((k, q) ∷ paths) name (first, all) = elim (Bool-cases (bytes_beq k name)) [
  | inl hit ↦ rw hit (AllOpen-delete paths name all)
  | inr miss ↦ rw miss (first, AllOpen-delete paths name all)
]

pub AllOpen-reselect : (now : ℕ) (m : Sender) → AllOpen m.paths → AllOpen (reselect now m).paths
unfolding select_best
AllOpen-reselect now m all = ground (arith, all)

pub AllOpen-update_rtt :
    (now : ℕ) (m : Sender) (name : List ℕ) (rtt : ℕ)
    → AllOpen m.paths
    → AllOpen (update_rtt now m name rtt).paths
unfolding update_rtt
AllOpen-update_rtt now m name rtt all = elim (Option-cases (lookup name m.paths)) [
  | inl none' ↦ rw (none', update_rtt) all
  | inr (p, e) ↦
      rw (e, update_rtt)
        (AllOpen-reselect now (record m { paths = insert name (add_sample now rtt p) m.paths })
          (AllOpen-insert m.paths name (add_sample now rtt p) all
            (AllOpen-lookup m.paths name p all e)))
]

pub AllOpen-count_received :
    (name : List ℕ) (n : ℕ) (m : Sender) → AllOpen m.paths → AllOpen (count_received name n m).paths
unfolding count_received
AllOpen-count_received name n m all = elim (Option-cases (lookup name m.paths)) [
  | inl none' ↦ rw (none', count_received) all
  | inr (p, e) ↦
      rw (e, count_received)
        (AllOpen-insert m.paths name (record p { rx_bytes = u64 (p.rx_bytes + n) }) all
          (AllOpen-lookup m.paths name p all e))
]

-- The sends change the status and the counter of a path, never its channel.
module _ (write_ok : List ℕ → Bool) where
  AllOpen-send_redundant :
      (bytes : List ℕ) (paths : Map (List ℕ) NetPath)
      → AllOpen paths
      → AllOpen (send_redundant write_ok bytes paths).0
  unfolding send_redundant
  AllOpen-send_redundant bytes [] all = tt
  AllOpen-send_redundant bytes ((name, p) ∷ rest) (first, all) =
      let others = AllOpen-send_redundant bytes rest all in ground (arith, first, others)

  pub AllOpen-send_all_heartbeat :
      (bytes : List ℕ) (paths : Map (List ℕ) NetPath)
      → AllOpen paths
      → AllOpen (send_all_heartbeat write_ok bytes paths).0
  unfolding send_all_heartbeat
  AllOpen-send_all_heartbeat bytes [] all = tt
  AllOpen-send_all_heartbeat bytes ((name, p) ∷ rest) (first, all) =
      let others = AllOpen-send_all_heartbeat bytes rest all in ground (arith, first, others)

  first_usable-open :
      (paths : Map (List ℕ) NetPath) (name : List ℕ) (p : NetPath)
      → AllOpen paths
      → first_usable write_ok paths ≡ some (name, p)
      → p.closed ≡ false
  unfolding first_usable
  first_usable-open [] name p all e = absurd cc
  first_usable-open ((k, q) ∷ rest) name p (first, all) e = elim (Bool-cases (is_down q.status)) [
    | inl off ↦ first_usable-open rest name p all (ground (arith, off, e))
    | inr on ↦ let same : q ≡ p = ground (arith, on, e) in ground (arith, same, first)
  ]

  choose-open :
      (m : Sender) (name : List ℕ) (p : NetPath)
      → AllOpen m.paths
      → choose write_ok m ≡ some (name, p)
      → p.closed ≡ false
  unfolding choose
  choose-open m name p all e = elim (Option-cases (lookup m.active_path m.paths)) [
    | inl none' ↦ first_usable-open m.paths name p all (ground (arith, none', e))
    | inr (q, known) ↦
        let same : q ≡ p = ground (arith, known, e) in
        ground (arith, same, AllOpen-lookup m.paths m.active_path q all known)
  ]

  AllOpen-send_failover :
      (bytes : List ℕ) (m : Sender) → AllOpen m.paths → AllOpen (send_failover write_ok bytes m).0
  unfolding send_failover
  AllOpen-send_failover bytes m all = elim (Option-cases (choose write_ok m)) [
    | inl none' ↦ rw (none', send_failover) all
    | inr ((name, p), e) ↦
        let open' = choose-open m name p all e in
        elim (Bool-cases (write_ok name)) [
          | inl done ↦
              rw (e, send_failover)
                (rw done (AllOpen-insert m.paths name (written p bytes) all open'))
          | inr lost ↦
              rw (e, send_failover) (rw lost (AllOpen-insert m.paths name (failed p) all open'))
        ]
  ]

  AllOpen-send_over :
      (bytes : List ℕ) (m : Sender) (paths : Map (List ℕ) NetPath)
      → AllOpen m.paths
      → AllOpen (send_over write_ok bytes m paths).0
  AllOpen-send_over bytes m [] all = tt
  AllOpen-send_over bytes m (p ∷ rest) all = elim (Bool-cases (m.send_mode == send_mode_failover)) [
    | inl failover ↦ rw failover (AllOpen-send_failover bytes m all)
    | inr redundant ↦ rw redundant (AllOpen-send_redundant bytes m.paths all)
  ]

  pub AllOpen-send :
      (bytes : List ℕ) (m : Sender) → AllOpen m.paths → AllOpen (send write_ok bytes m).0
  unfolding send
  AllOpen-send bytes m all = AllOpen-send_over bytes m m.paths all
