-- ===== src/Transport/Watcher/Scanning.antt =====
-- scanInterfaces of internal/transport/iface.go lists each interface once, under its own name.
use mpfpv.Prelude.{
  ℕ, ◌≡◌, refl, sym, ◌∙◌, ap, arith, List, [], ◌∷◌, false, Option, none, some, Bool-cases, inl, inr,
  bytes_beq, bytes_beq_iff, bytes_eq,
}
use mpfpv.Prelude.Map.{Map, lookup, insert, lookup-insert}
use mpfpv.Transport.Changes.{InterfaceInfo}
use mpfpv.Transport.Watcher.{OsInterface, scan_interface, add_scanned, scan_list, scan_interfaces}
use mpfpv.Transport.Watcher.Detection.{AreInterfaces}

AreInterfaces-insert :
    (m : Map (List ℕ) InterfaceInfo) (info : InterfaceInfo)
    → AreInterfaces m
    → AreInterfaces (insert info.name info m)
unfolding insert lookup
AreInterfaces-insert [] info valid = (refl, refl, tt)
AreInterfaces-insert ((k, i) ∷ m) info (named, fresh, valid) =
    elim (Bool-cases (bytes_beq k info.name)) [
      | inl hit ↦
          let key : k ≡ info.name = (bytes_beq_iff k info.name).0 hit in
          rw hit (refl, ap (λ n. lookup n m) (sym key) ∙ fresh, valid)
      | inr miss ↦
          let other : bytes_beq info.name k ≡ false =
            ground (arith, miss, bytes_beq_iff k info.name, bytes_beq_iff info.name k) in
          rw miss (
            named,
            lookup-insert info.name k info m ∙ rw other fresh,
            AreInterfaces-insert m info valid,
          )
    ]

AreInterfaces-add_scanned :
    (o : Option InterfaceInfo) (m : Map (List ℕ) InterfaceInfo)
    → AreInterfaces m
    → AreInterfaces (add_scanned o m)
AreInterfaces-add_scanned none m valid = valid
AreInterfaces-add_scanned (some info) m valid = AreInterfaces-insert m info valid

module _ (excluded : List (List ℕ)) where
  scan_list-AreInterfaces :
      (ifaces : List OsInterface) (m : Map (List ℕ) InterfaceInfo)
      → AreInterfaces m
      → AreInterfaces (scan_list excluded ifaces m)
  scan_list-AreInterfaces [] m valid = valid
  scan_list-AreInterfaces (iface ∷ rest) m valid =
      scan_list-AreInterfaces rest (add_scanned (scan_interface excluded iface) m)
        (AreInterfaces-add_scanned (scan_interface excluded iface) m valid)

  pub scan_interfaces-AreInterfaces :
      (ifaces : Option (List OsInterface)) → AreInterfaces (scan_interfaces excluded ifaces)
  unfolding scan_interfaces
  scan_interfaces-AreInterfaces none = tt
  scan_interfaces-AreInterfaces (some ifaces) = scan_list-AreInterfaces ifaces [] tt
