-- ===== src/Transport/Watcher/Following.antt =====
-- The paths of internal/transport/multipath.go follow the interfaces that the watcher of
-- internal/transport/iface.go finds.
use mpfpv.Prelude.{
  ℕ, ◌≡◌, refl, sym, ◌∙◌, ap, arith, List, [], ◌∷◌, Bool, true, not, ◌&&◌, ◌||◌, Option, none, some,
  Bool-cases, Option-cases, inl, inr, bytes_beq, bytes_beq_iff, bytes_eq,
}
use mpfpv.Prelude.Map.{Map, lookup, delete, lookup-insert, lookup-delete}
use mpfpv.Prelude.Outcome.{returns}
use mpfpv.Transport.Paths.{Sender, reselect, select_best}
use mpfpv.Transport.Changes.{
  InterfaceInfo, local_addr_of, first_addr, new_path, remove_path, remove_paths, add_path,
  add_paths, any_added, on_interface_change,
}
use mpfpv.Transport.Open.{AllOpen, AllOpen-lookup, AllOpen-delete}
use mpfpv.Transport.Watcher.Scanning.{scan_interfaces-AreInterfaces}
use mpfpv.Transport.Watcher.{OsInterface, scan_interfaces, detect_changes, same_info, same_addrs}
use mpfpv.Transport.Watcher.Detection.{
  AreInterfaces, is_some, listed_info, reaches, lists_reaching, differ, detect_changes_removed,
  detect_changes_added,
}

-- There is a path for each interface with an address of the server's family, and no other path.
abbrev pub Follows : Bool → Sender → Map (List ℕ) InterfaceInfo → Type 0
Follows v4 m infos =
    (name : List ℕ) → is_some (lookup name m.paths) ≡ reaches v4 (lookup name infos)

remove_paths-names :
    (removed : List InterfaceInfo) (m : Sender)
    → AllOpen m.paths
    → (m' : Sender) × (remove_paths removed m ≡ returns m')
      × ((name : List ℕ)
          → is_some (lookup name m'.paths)
            ≡ (not (listed_info name removed) && is_some (lookup name m.paths)))
unfolding remove_paths remove_path
remove_paths-names [] m all = (m, refl, λ name. refl)
remove_paths-names (info ∷ rest) m all = elim (Option-cases (lookup info.name m.paths)) [
  | inl none' ↦
      let (m', e, names) = remove_paths-names rest m all in
      (
        m',
        rw (none', remove_path) e,
        λ name. elim (Bool-cases (bytes_beq info.name name)) [
          | inl hit ↦
              let gone : lookup name m.paths ≡ none =
                ap (λ n. lookup n m.paths) (sym ((bytes_beq_iff info.name name).0 hit)) ∙ none' in
              ground (arith, hit, gone, names name)
          | inr miss ↦ ground (arith, miss, names name)
        ],
      )
  | inr (p, found) ↦
      let open' = AllOpen-lookup m.paths info.name p all found in
      let (m', e, names) =
        remove_paths-names rest (record m { paths = delete info.name m.paths })
          (AllOpen-delete m.paths info.name all) in
      (
        m',
        rw (found, remove_path) (rw open' e),
        λ name. ground (arith, names name, lookup-delete info.name name m.paths),
      )
]

module _ (v4 : Bool) (can_bind_addr : List ℕ → List ℕ → Bool)
    (binds : (a name : List ℕ) → can_bind_addr a name ≡ true) where
  add_path-names :
      (now : ℕ) (info : InterfaceInfo) (m : Sender) (name : List ℕ)
      → is_some (lookup name (add_path v4 can_bind_addr now info m).paths)
        ≡ (bytes_beq info.name name && reaches v4 (some info) || is_some (lookup name m.paths))
  unfolding add_path
  add_path-names now info m name = elim (Option-cases (local_addr_of v4 info)) [
    | inl none' ↦ rw (none', add_path) (ground arith)
    | inr (a, e) ↦
        rw (e, add_path)
          (rw (binds a info.name)
            (ground (arith, lookup-insert info.name name (new_path now a) m.paths)))
  ]

  add_paths-names :
      (added : List InterfaceInfo) (now : ℕ) (m : Sender) (name : List ℕ)
      → is_some (lookup name (add_paths v4 can_bind_addr now added m).paths)
        ≡ (lists_reaching v4 name added || is_some (lookup name m.paths))
  unfolding add_paths
  add_paths-names [] now m name = refl
  add_paths-names (info ∷ rest) now m name = ground (
    arith,
    add_paths-names rest now (add_path v4 can_bind_addr now info m) name,
    add_path-names now info m name,
  )

reselect-paths : (now : ℕ) (m : Sender) → (reselect now m).paths ≡ m.paths
unfolding select_best
reselect-paths now m = ground arith

same_addrs-first :
    (a b : List (List ℕ)) → same_addrs a b ≡ true → is_some (first_addr a) ≡ is_some (first_addr b)
unfolding same_addrs
same_addrs-first [] [] same = refl
same_addrs-first [] (y ∷ b) same = absurd (ground (arith, same))
same_addrs-first (x ∷ a) [] same = absurd (ground (arith, same))
same_addrs-first (x ∷ a) (y ∷ b) same = refl

same_info-reaches :
    (v4 : Bool) (old new : InterfaceInfo)
    → same_info old new ≡ true
    → reaches v4 (some old) ≡ reaches v4 (some new)
same_info-reaches v4 old new same =
    let four = same_addrs-first old.addrs new.addrs (ground (arith, same)) in
    let six = same_addrs-first old.addrs6 new.addrs6 (ground (arith, same)) in
    ground (arith, four, six)

agree :
    (v4 : Bool) (old new : Option InterfaceInfo) (path : Bool)
    → path ≡ reaches v4 old
    → (reaches v4 new && not (is_some old)
        || reaches v4 new && differ new old
        || (not (is_some old && not (is_some new) || differ new old) && path))
      ≡ reaches v4 new
agree v4 none none path e = ground (arith, e)
agree v4 none (some new) path e = ground (arith, e)
agree v4 (some old) none path e = ground (arith, e)
agree v4 (some old) (some new) path e = elim (Bool-cases (same_info old new)) [
  | inl same ↦ ground (arith, e, same, same_info-reaches v4 old new same)
  | inr other ↦ ground (arith, e, other)
]

follow :
    (v4 : Bool) (can_bind_addr : List ℕ → List ℕ → Bool) (now : ℕ)
    (current new : Map (List ℕ) InterfaceInfo) (m : Sender)
    → ((a name : List ℕ) → can_bind_addr a name ≡ true)
    → AreInterfaces current
    → AreInterfaces new
    → AllOpen m.paths
    → Follows v4 m current
    → let (added, removed) = detect_changes current new in
      (m' : Sender) × (heartbeat : Bool) × (on_interface_change v4 can_bind_addr now added removed m
        ≡ returns (m', heartbeat))
      × Follows v4 m' new
unfolding on_interface_change
follow v4 can_bind_addr now current new m binds before after open' follows =
    let (added, removed) = detect_changes current new in
    let (m', e, names) = remove_paths-names removed m open' in
    let with_added : Sender = add_paths v4 can_bind_addr now added m' in
    (
      reselect now with_added,
      any_added v4 can_bind_addr added,
      rw e refl,
      λ name.
          ap (λ ps. is_some (lookup name ps)) (reselect-paths now with_added)
          ∙ add_paths-names v4 can_bind_addr binds added now m' name
          ∙ rw
              (
                names name,
                detect_changes_added v4 current new name after,
                detect_changes_removed current new name before after,
              )
              (agree v4 (lookup name current) (lookup name new) (is_some (lookup name m.paths))
                (follows name)),
    )

-- If there was one path for each interface of the last scan that has an address of the server's
-- family, and no other, this holds of the next scan after the change that is reported, where
-- sockets can be bound and the paths have open channels: the change returns.
pub detect_changes-Follows :
    (v4 : Bool) (can_bind_addr : List ℕ → List ℕ → Bool) (now : ℕ) (excluded : List (List ℕ))
    (last next : Option (List OsInterface)) (m : Sender)
    → ((a name : List ℕ) → can_bind_addr a name ≡ true)
    → AllOpen m.paths
    → Follows v4 m (scan_interfaces excluded last)
    → let (added, removed) =
        detect_changes (scan_interfaces excluded last) (scan_interfaces excluded next) in
      (m' : Sender) × (heartbeat : Bool) × (on_interface_change v4 can_bind_addr now added removed m
        ≡ returns (m', heartbeat))
      × Follows v4 m' (scan_interfaces excluded next)
detect_changes-Follows v4 can_bind_addr now excluded last next m binds open' follows =
    follow v4 can_bind_addr now (scan_interfaces excluded last) (scan_interfaces excluded next) m
      binds (scan_interfaces-AreInterfaces excluded last)
      (scan_interfaces-AreInterfaces excluded next) open' follows
