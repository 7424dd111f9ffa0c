-- ===== src/Transport/Open/Recycling.antt =====
-- Recycling and changes of the interfaces in internal/transport/multipath.go, while no channel `closed`
-- is closed: they return, and close none.
use mpfpv.Prelude.{
  ℕ, ◌≡◌, refl, List, [], ◌∷◌, Bool, true, false, Bool-cases, Option-cases, inl, inr, bytes_eq,
}
use mpfpv.Prelude.Outcome.{returns}
use mpfpv.Prelude.Map.{Map, lookup, insert, delete}
use mpfpv.Transport.Paths.{Sender, NetPath, reselect}
use mpfpv.Transport.Changes.{
  InterfaceInfo, remove_path, remove_paths, add_path, add_paths, on_interface_change, any_added,
  new_path, local_addr_of,
}
use mpfpv.Transport.Recycle.{
  recycle_path, recycle_all, check_paths, check_and_recycle, renew, Check, after_check, check_path,
  keep, mark_down, stale,
}
use mpfpv.Transport.Open.{AllOpen, AllOpen-lookup, AllOpen-insert, AllOpen-delete, AllOpen-reselect}

AllOpen-check_paths :
    (now : ℕ) (paths : Map (List ℕ) NetPath) → AllOpen paths → AllOpen (check_paths now paths).0
unfolding check_paths
AllOpen-check_paths now [] all = tt
AllOpen-check_paths now ((name, p) ∷ rest) (first, all) =
    (after_check-open (check_path now p), AllOpen-check_paths now rest all)
  where
    after_check-open : (c : Check) → (after_check c p).closed ≡ false
    after_check-open keep = first
    after_check-open mark_down = first
    after_check-open stale = first

-- Where every new socket can be bound, recycling goes on without an end of the program.
module _ (can_bind : List ℕ → Bool) (binds : (name : List ℕ) → can_bind name ≡ true) where
  recycle_path-open :
      (now : ℕ) (m : Sender) (name : List ℕ)
      → AllOpen m.paths
      → (m' : Sender) × (recycle_path can_bind now m name ≡ returns m') × AllOpen m'.paths
  unfolding recycle_path
  recycle_path-open now m name all = elim (Option-cases (lookup name m.paths)) [
    | inl none' ↦ (m, rw (none', recycle_path) refl, all)
    | inr (p, e) ↦
        let open' = AllOpen-lookup m.paths name p all e in
        let fresh : (renew can_bind now name p).closed ≡ false = rw (binds name) refl in
        (
          record m { paths = insert name (renew can_bind now name p) m.paths },
          rw (e, recycle_path) (rw open' refl),
          AllOpen-insert m.paths name (renew can_bind now name p) all fresh,
        )
  ]

  recycle_all-open :
      (names : List (List ℕ)) (now : ℕ) (m : Sender)
      → AllOpen m.paths
      → (m' : Sender) × (recycle_all can_bind now names m ≡ returns m') × AllOpen m'.paths
  unfolding recycle_all
  recycle_all-open [] now m all = (m, refl, all)
  recycle_all-open (name ∷ names) now m all =
      let (m', e, all') = recycle_path-open now m name all in
      let (m'', e', all'') = recycle_all-open names now m' all' in (m'', rw e e', all'')

  pub check_and_recycle-open :
      (now : ℕ) (m : Sender)
      → AllOpen m.paths
      → (m' : Sender) × (check_and_recycle can_bind now m ≡ returns m') × AllOpen m'.paths
  unfolding check_and_recycle
  check_and_recycle-open now m all =
      recycle_all-open (check_paths now m.paths).1 now
        (record m { paths = (check_paths now m.paths).0 }) (AllOpen-check_paths now m.paths all)

remove_paths-open :
    (removed : List InterfaceInfo) (m : Sender)
    → AllOpen m.paths
    → (m' : Sender) × (remove_paths removed m ≡ returns m') × AllOpen m'.paths
unfolding remove_paths remove_path
remove_paths-open [] m all = (m, refl, all)
remove_paths-open (info ∷ rest) m all = elim (Option-cases (lookup info.name m.paths)) [
  | inl none' ↦
      let (m', e, all') = remove_paths-open rest m all in (m', rw (none', remove_path) e, all')
  | inr (p, found) ↦
      let open' = AllOpen-lookup m.paths info.name p all found in
      let (m', e, all') =
        remove_paths-open rest (record m { paths = delete info.name m.paths })
          (AllOpen-delete m.paths info.name all) in
      (m', rw (found, remove_path) (rw open' e), all')
]

module _ (server_is_ipv4 : Bool) (can_bind_addr : List ℕ → List ℕ → Bool) where
  AllOpen-add_path :
      (now : ℕ) (info : InterfaceInfo) (m : Sender)
      → AllOpen m.paths
      → AllOpen (add_path server_is_ipv4 can_bind_addr now info m).paths
  unfolding add_path
  AllOpen-add_path now info m all = elim (Option-cases (local_addr_of server_is_ipv4 info)) [
    | inl none' ↦ rw (none', add_path) all
    | inr (a, e) ↦ elim (Bool-cases (can_bind_addr a info.name)) [
      | inl bound ↦
          rw (e, add_path) (rw bound (AllOpen-insert m.paths info.name (new_path now a) all refl))
      | inr unbound ↦ rw (e, add_path) (rw unbound all)
    ]
  ]

  pub AllOpen-add_paths :
      (added : List InterfaceInfo) (now : ℕ) (m : Sender)
      → AllOpen m.paths
      → AllOpen (add_paths server_is_ipv4 can_bind_addr now added m).paths
  unfolding add_paths
  AllOpen-add_paths [] now m all = all
  AllOpen-add_paths (info ∷ rest) now m all =
      AllOpen-add_paths rest now (add_path server_is_ipv4 can_bind_addr now info m)
        (AllOpen-add_path now info m all)

  pub on_interface_change-open :
      (now : ℕ) (added removed : List InterfaceInfo) (m : Sender)
      → AllOpen m.paths
      → (m' : Sender) × (b : Bool) × (on_interface_change server_is_ipv4 can_bind_addr now added
            removed m
          ≡ returns (m', b))
        × AllOpen m'.paths
  unfolding on_interface_change
  on_interface_change-open now added removed m all =
      let (m', e, all') = remove_paths-open removed m all in
      (
        reselect now (add_paths server_is_ipv4 can_bind_addr now added m'),
        any_added server_is_ipv4 can_bind_addr added,
        rw e refl,
        AllOpen-reselect now (add_paths server_is_ipv4 can_bind_addr now added m')
            (AllOpen-add_paths added now m' all'),
      )
