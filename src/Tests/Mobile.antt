-- ===== src/Tests/Mobile.antt =====
-- The lifecycle of mobile/mobile.go at concrete inputs.
use mpfpv.Prelude.{◌≡◌, ◌+◌, refl, [], ◌∷◌, ◌++◌, true, false, none, some, arith}
use mpfpv.Prelude.Int.{pos}
use mpfpv.Prelude.Outcome.{ok}
use mpfpv.Config.{redundant_name}
use mpfpv.Client.State.{Client, start, new}
use mpfpv.Lifecycle.{launched, find_run}
use mpfpv.Mobile.{StartArgs, System, new_system, mobile_client, mobile_path}
use mpfpv.Mobile.Port.{Target, word64, word32, web_port_of}
use mpfpv.Prelude.Int.{pos}
use mpfpv.Mobile.Port.Digits.{decimal, web_port_of-decimal}
use mpfpv.Mobile.Steps.{start_begins, start_sets, stop, run_ends, find_start, remove_start}
use mpfpv.Mobile.Restart.{stop-start-run_ends, start_sets-stop}
use mpfpv.Tests.Config.{hash, sha256, resolves}
use mpfpv.Tests.Windows.{network, unchanged}

abbrev arm64 : Target
arm64 = record { word = word64; runes = unchanged }

abbrev arm : Target
arm = record { word = word32; runes = unchanged }

abbrev args : StartArgs
args = record {
  server_addr = 97 ∷ 58 ∷ 49 ∷ [];
  team_key = 107 ∷ [];
  device_name = 112 ∷ [];
  machine_id = 4 ∷ [];
  web_ui_addr = [];
  callback = 1;
}

abbrev phone : Client
phone =
    record (start hash (4 ∷ []) sha256 resolves (112 ∷ []) (107 ∷ []) (record {
      client_id = 0;
      virtual_ip = [];
      device_name = 112 ∷ [];
      server_addr = 97 ∷ 58 ∷ 49 ∷ [];
      send_mode = redundant_name;
      mtu = pos 1400;
      dedup_window = pos 4096;
      excluded_interfaces = [];
      bind_interface = [];
      web_ui = [];
    })) { virtual_path_name = mobile_path }

made : mobile_client (network 7) (4 ∷ []) args ≡ ok phone
unfolding new
made = refl

-- A client that runs.
abbrev running : System
running = start_sets (network 7) arm64 true 0 (start_begins args new_system)

cancellable : running.globals.cancel ≡ some 0
unfolding start_sets start_begins find_start remove_start new
cancellable = refl

first : find_run 0 running.runs ≡ some (launched 0)
unfolding start_sets start_begins find_start remove_start new find_run
first = refl

second : 0 + 1 ≡ running.next
unfolding start_sets start_begins find_start remove_start new
second = refl

stop-start-run_ends_example :
    let t : System =
      run_ends 0
        (start_sets (network 7) arm64 true running.next (start_begins args (stop running))) in
    (t.globals.running ≡ false)
    × (t.globals.cli ≡ none)
    × (find_run running.next t.runs ≡ some (launched running.next))
stop-start-run_ends_example =
    stop-start-run_ends (network 7) arm64 running args 0 (launched 0) phone cancellable first
      (omega (arith, second)) made

start_sets-stop_example :
    let first : System =
      start_sets (network 7) arm64 true 0 (start_begins args (start_begins args new_system)) in
    let t : System = stop (start_sets (network 7) arm64 true 1 first) in
    (find_run 0 t.runs ≡ some (launched 0)) × (t.globals.cancel ≡ none)
start_sets-stop_example =
    start_sets-stop (network 7) arm64 new_system args args phone phone refl made made

-- "a:9801"
web_port_of-decimal_example :
    web_port_of arm (pos 0) ((97 ∷ []) ++ 58 ∷ decimal 9802 9801 []) ≡ pos 9801
web_port_of-decimal_example = web_port_of-decimal arm (97 ∷ []) (pos 0) 9801 (omega arith) refl
