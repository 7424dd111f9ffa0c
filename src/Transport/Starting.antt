-- ===== src/Transport/Starting.antt =====
-- NewMultiPathSender, Start and Stop of internal/transport/multipath.go, with Start and Current of the
-- interface watcher of iface.go, which returns no error.
use mpfpv.Prelude.{ℕ, List, [], ◌∷◌, Bool, true, ◌||◌, Option, none, some, if◌then◌else◌}
use mpfpv.Prelude.Map.{Map}
use mpfpv.Transport.Paths.{Sender, default_switch_cooldown, reselect}
use mpfpv.Transport.Changes.{InterfaceInfo, add_paths}
use mpfpv.Transport.Open.{AllOpen, AllOpen-reselect}
use mpfpv.Transport.Open.Recycling.{AllOpen-add_paths}

abbrev pub new_sender : ℕ → Sender
new_sender mode = record {
  paths = [];
  send_mode = mode;
  active_path = [];
  last_switch = none;
  switch_cooldown = default_switch_cooldown;
}

abbrev current_infos : Map (List ℕ) InterfaceInfo → List InterfaceInfo
current_infos [] = []
current_infos ((name, info) ∷ rest) = info ∷ current_infos rest

module _ (server_is_ipv4 : Bool) (can_bind : List ℕ → List ℕ → Bool) where
  -- `none` is an error: the central socket can be opened for neither family. `scanned` is what the
  -- watcher's first scan finds.
  unfoldable pub start_sender :
      Bool → Bool → ℕ → Map (List ℕ) InterfaceInfo → Sender → Option Sender
  start_sender can_listen6 can_listen4 now scanned m =
      if can_listen6 || can_listen4
      then some (reselect now (add_paths server_is_ipv4 can_bind now (current_infos scanned) m))
      else none

  pub start_sender-AllOpen :
      (now : ℕ) (scanned : Map (List ℕ) InterfaceInfo) (m : Sender)
      → AllOpen m.paths
      → AllOpen
          (reselect now (add_paths server_is_ipv4 can_bind now (current_infos scanned) m)).paths
  start_sender-AllOpen now scanned m open' =
      AllOpen-reselect now _
        (AllOpen-add_paths server_is_ipv4 can_bind (current_infos scanned) now m open')

-- The sender, and whether its `stopCh` is closed. A second call returns at once.
unfoldable pub stop_sender : Sender × Bool → Sender × Bool
stop_sender (m, stopped) = if stopped then (m, stopped) else (record m { paths = [] }, true)
