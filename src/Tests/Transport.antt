-- ===== src/Tests/Transport.antt =====
-- Runs of internal/transport/multipath.go with two paths, the faster of which is down.
use mpfpv.Prelude.{
  ℕ, ◌*◌, ◌≤◌, ◌≡◌, refl, arith, List, [], ◌∷◌, Bool, true, false, none, some, bytes_beq, bytes_eq,
  if◌then◌else◌,
}
use mpfpv.Prelude.Map.{lookup}
use mpfpv.Transport.Paths.{Sender, NetPath, active, down, is_down, best_path, second}
use mpfpv.Transport.Paths.Choice.{ArePaths, best_path-least}
use mpfpv.Transport.Output.{send, all_failed_or_down}
use mpfpv.Transport.Output.Copies.{usable, copies, any_ok, outcomes, send-copies}
use mpfpv.Prelude.Outcome.{returns, panics}
use mpfpv.Transport.Changes.{InterfaceInfo, on_interface_change}
use mpfpv.Transport.Recycle.{check_and_recycle, recycle_path}
use mpfpv.Transport.Recycle.Closed.{recycle_path-on_interface_change-panics}
use mpfpv.Transport.Recycle.Stuck.{EndsOrKeeps, HasDistinctNames, check_and_recycle_stuck}

abbrev pub wifi : List ℕ
wifi = 119 ∷ []

abbrev cell : List ℕ
cell = 99 ∷ []

abbrev pub slow : NetPath
slow = record {
  local_addr = 10 ∷ 0 ∷ 0 ∷ 5 ∷ [];
  rtt = 80;
  rtt_samples = 80 ∷ [];
  last_recv = 0;
  status = active;
  miss_count = 0;
  tx_bytes = 0;
  rx_bytes = 0;
  last_recycled = none;
  recycle_count = 0;
  closed = false;
}

abbrev broken : NetPath
broken = record slow {
  rtt = 20;
  status = down;
  recycle_count = 1;
  last_recycled = some 7;
  closed = true;
}

abbrev pub sender : Sender
sender = record {
  paths = (cell, broken) ∷ (wifi, slow) ∷ [];
  send_mode = 0;
  active_path = [];
  last_switch = none;
  switch_cooldown = 5 * second;
}

abbrev all_ok : List ℕ → Bool
all_ok name = true

names : ArePaths sender.paths
unfolding lookup bytes_beq
names = (refl, refl, (refl, refl, tt))

distinct : HasDistinctNames sender.paths
unfolding lookup bytes_beq
distinct = (refl, (refl, tt))

wifi_path : lookup wifi sender.paths ≡ some slow
unfolding lookup bytes_beq
wifi_path = refl

cell_path : lookup cell sender.paths ≡ some broken
unfolding lookup bytes_beq
cell_path = refl

best_path-least_example :
    (p : NetPath) × (lookup (best_path [] 0 sender.paths) sender.paths ≡ some p)
    × (is_down p.status ≡ false)
    × (p.rtt ≤ 80)
best_path-least_example = best_path-least sender.paths wifi slow names wifi_path refl

send-copies_example :
    ((send all_ok (1 ∷ 2 ∷ []) sender).0 ≡ outcomes all_ok (1 ∷ 2 ∷ []) sender.paths)
    × ((send all_ok (1 ∷ 2 ∷ []) sender).1 ≡ copies (1 ∷ 2 ∷ []) (usable sender.paths))
    × ((send all_ok (1 ∷ 2 ∷ []) sender).2 ≡ (
        if any_ok all_ok (1 ∷ 2 ∷ []) (usable sender.paths) then none else some all_failed_or_down))
send-copies_example =
    send-copies all_ok (1 ∷ 2 ∷ []) sender cell broken ((wifi, slow) ∷ []) refl refl

check_and_recycle_stuck_example :
    EndsOrKeeps cell sender (check_and_recycle all_ok (900 * second) sender)
check_and_recycle_stuck_example =
    check_and_recycle_stuck all_ok (900 * second) sender cell broken distinct cell_path refl
      (omega arith)

abbrev none_ok : List ℕ → Bool
none_ok name = false

abbrev wifi_info : InterfaceInfo
wifi_info = record { name = wifi; addrs = []; addrs6 = []; is_up = true }

recycle_path-on_interface_change-panics_example :
    (m' : Sender) × (recycle_path none_ok 900 sender wifi ≡ returns m')
    × (on_interface_change true (λ addr name. true) 950 [] (wifi_info ∷ []) m' ≡ panics)
recycle_path-on_interface_change-panics_example =
    recycle_path-on_interface_change-panics none_ok true (λ addr name. true) 900 950 sender slow
      wifi_info [] [] wifi_path refl refl
