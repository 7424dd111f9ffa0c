-- ===== src/Transport/Changes.antt =====
-- addPath, removePath and onInterfaceChange of internal/transport/multipath.go, and the snapshot
-- of GetPaths. Whether a socket can be bound to an address and an interface is a parameter.
use mpfpv.Prelude.{
  ℕ, List, [], ◌∷◌, Bool, true, false, Option, none, some, if◌then◌else◌, bytes_beq, bytes_eq,
}
use mpfpv.Prelude.Map.{Map, lookup, insert, delete}
use mpfpv.Prelude.Outcome.{Run, returns, panics, ◌>>=◌}
use mpfpv.Transport.Paths.{Sender, NetPath, active, reselect}

-- The name of an interface, with its addresses of IPv4 and of IPv6, and whether it is up.
pub record InterfaceInfo : Type 0 where
  pub name : List ℕ
  pub addrs : List (List ℕ)
  pub addrs6 : List (List ℕ)
  pub is_up : Bool

abbrev pub new_path : ℕ → List ℕ → NetPath
new_path now local_addr = record {
  local_addr = local_addr;
  rtt = 0;
  rtt_samples = [];
  last_recv = now;
  status = active;
  miss_count = 0;
  tx_bytes = 0;
  rx_bytes = 0;
  last_recycled = none;
  recycle_count = 0;
  closed = false;
}

abbrev pub first_addr : List (List ℕ) → Option (List ℕ)
first_addr [] = none
first_addr (a ∷ rest) = some a

-- The address of the family of the server's address.
abbrev pub local_addr_of : Bool → InterfaceInfo → Option (List ℕ)
local_addr_of server_is_ipv4 info =
    if server_is_ipv4 then first_addr info.addrs else first_addr info.addrs6

-- close(p.closed): closing a closed channel panics. The code looks the path up and closes the channel
-- before it takes the lock to delete it; here that is one step, so that nothing comes in between.
unfoldable pub remove_path : Sender → List ℕ → Run Sender
remove_path m name = elim (lookup name m.paths) [
  | none ↦ returns m
  | some p ↦ if p.closed then panics else returns (record m { paths = delete name m.paths })
]

unfoldable pub remove_paths : List InterfaceInfo → Sender → Run Sender
remove_paths [] m = returns m
remove_paths (info ∷ rest) m = do m' ← remove_path m info.name; remove_paths rest m'

-- A row of `PathInfo`: the name, the path, and whether it is the active one.
get_paths : List ℕ → Map (List ℕ) NetPath → List (List ℕ × NetPath × Bool)
get_paths active_path [] = []
get_paths active_path ((name, p) ∷ rest) =
    (name, p, bytes_beq name active_path) ∷ get_paths active_path rest

module _ (server_is_ipv4 : Bool) (can_bind : List ℕ → List ℕ → Bool) where
  unfoldable pub add_path : ℕ → InterfaceInfo → Sender → Sender
  add_path now info m = elim (local_addr_of server_is_ipv4 info) [
    | none ↦ m
    | some a ↦
        if can_bind a info.name
        then record m { paths = insert info.name (new_path now a) m.paths }
        else m
  ]

  unfoldable pub add_paths : ℕ → List InterfaceInfo → Sender → Sender
  add_paths now [] m = m
  add_paths now (info ∷ rest) m = add_paths now rest (add_path now info m)

  abbrev pub any_added : List InterfaceInfo → Bool
  any_added [] = false
  any_added (info ∷ rest) = true

  -- The sender after the change, and whether a heartbeat is triggered at once.
  unfoldable pub on_interface_change :
      ℕ → List InterfaceInfo → List InterfaceInfo → Sender → Run (Sender × Bool)
  on_interface_change now added removed m = do
    m' ← remove_paths removed m
    returns (reselect now (add_paths now added m'), any_added added)
