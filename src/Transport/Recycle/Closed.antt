-- ===== src/Transport/Recycle/Closed.antt =====
-- The channel `closed` of a path in internal/transport/multipath.go: recyclePath closes it and makes a
-- new one only with the new socket, and removePath closes it again.
use mpfpv.Prelude.{ℕ, ◌≡◌, refl, ◌∙◌, List, ◌∷◌, Bool, true, false, some, bytes_eq}
use mpfpv.Prelude.Outcome.{returns, panics}
use mpfpv.Prelude.Map.{lookup, insert, lookup-insert, beq_refl}
use mpfpv.Transport.Paths.{Sender, NetPath, down}
use mpfpv.Transport.Changes.{InterfaceInfo, remove_path, remove_paths, on_interface_change}
use mpfpv.Transport.Recycle.{recycle_path}

module _ (can_bind : List ℕ → Bool) (server_is_ipv4 : Bool)
    (can_bind_addr : List ℕ → List ℕ → Bool) where
  -- Where no new socket can be bound to the interface of a path that is recycled, whose channel is
  -- open, the recycling returns, and if that interface is the first to be removed in the next
  -- change, the change ends the program: the channel of the path is closed a second time.
  pub recycle_path-on_interface_change-panics :
      (now later : ℕ) (m : Sender) (p : NetPath) (info : InterfaceInfo)
      (added removed : List InterfaceInfo)
      → lookup info.name m.paths ≡ some p
      → p.closed ≡ false
      → can_bind info.name ≡ false
      → (m' : Sender) × (recycle_path can_bind now m info.name ≡ returns m')
        × (on_interface_change server_is_ipv4 can_bind_addr later added (info ∷ removed) m'
            ≡ panics)
  unfolding recycle_path on_interface_change remove_paths remove_path
  recycle_path-on_interface_change-panics now later m p info added removed e open' unbound =
      let gone : NetPath = record p { status = down; closed = true } in
      let found : lookup info.name (insert info.name gone m.paths) ≡ some gone =
        lookup-insert info.name info.name gone m.paths ∙ rw (beq_refl info.name) refl in
      (
        record m { paths = insert info.name gone m.paths },
        rw (e, recycle_path) (rw (open', unbound) refl),
        rw (found, remove_path) refl,
      )
