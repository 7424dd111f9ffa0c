-- ===== src/Client/Running.antt =====
-- Run of internal/client/client.go, after its sockets are there: the rounds of its three loops, as a
-- sequence of events. Each event carries what the outside answers to the calls it makes.
pub mod Invariant
pub mod Incoming
pub mod Safety
use mpfpv.Prelude.{
  ℕ, List, [], ◌∷◌, ◌++◌, length, Bool, true, false, Option, none, some, if◌then◌else◌,
}
use mpfpv.Prelude.Outcome.{Run, returns, panics, ◌>>=◌, ◌>>◌}
use mpfpv.Transport.Paths.{Sender, count_received}
use mpfpv.Transport.Changes.{InterfaceInfo, on_interface_change}
use mpfpv.Transport.Recycle.{check_and_recycle}
use mpfpv.Client.State.{Client, ClientEffect, ClientStep}
use mpfpv.Client.Sending.{tun_read, send_heartbeat, send_payload}
use mpfpv.Client.Receiving.{receive, receive_multipath}

pub record World : Type 0 where
  pub write_ok : List ℕ → Bool
  pub conn_ok : Bool
  pub tun_ok : List ℕ → ℕ → Bool
  pub can_bind : List ℕ → Bool
  pub can_bind_addr : List ℕ → List ℕ → Bool
  pub server_is_ipv4 : Bool

-- The first heartbeat, a tick of the heartbeat loop, a datagram and the path it came on, a packet of the TUN device, a
-- call of Send, and a change of the interfaces.
pub data Event : Type 0 where
  initial tick : Event
  datagram : List ℕ → List ℕ → Event
  tun_packet : List ℕ → Event
  send_call : List ℕ → Event
  change : List InterfaceInfo → List InterfaceInfo → Event

-- c.multipath.CheckAndRecycleStalePaths(), after each heartbeat of the ticker.
abbrev pub recycle : World → ℕ → Client → Option Sender → Run Client
recycle w now c none = returns c
recycle w now c (some m) = do
  m' ← check_and_recycle w.can_bind now m
  returns (record c { multipath = some m' })

abbrev pub beat : World → ℕ → Client → ClientStep
beat w now c = let (step, error) = send_heartbeat w.write_ok w.conn_ok now c in step

-- The watcher's change; a path that was added triggers a heartbeat.
abbrev pub changed : World → ℕ → Client → Bool → ClientStep
changed w now c heartbeat = if heartbeat then beat w now c else (c, [])

abbrev pub change_paths :
    World → ℕ → List InterfaceInfo → List InterfaceInfo → Client → Option Sender → Run ClientStep
change_paths w now added removed c none = returns (c, [])
change_paths w now added removed c (some m) = do
  (m', heartbeat) ← on_interface_change w.server_is_ipv4 w.can_bind_addr now added removed m
  returns (changed w now (record c { multipath = some m' }) heartbeat)

-- The loop that Run starts for the sockets that there are. The socket of a path counts its bytes
-- first, that of no path (`central`) does not.
abbrev pub receive_over : World → ℕ → Client → List ℕ → List ℕ → Option Sender → Run ClientStep
receive_over w now c bytes from_path none = receive w.tun_ok now c bytes
receive_over w now c bytes from_path (some m) =
    receive_multipath w.tun_ok now
      (record c { multipath = some (count_received from_path (length bytes) m) }) bytes from_path

unfoldable pub step : World → ℕ → Client → Event → Run ClientStep
step w now c initial = returns (beat w now c)
step w now c tick = do
  let (c', effects) = beat w now c
  c'' ← recycle w now c' c'.multipath
  returns (c'', effects)
step w now c (datagram bytes from_path) = receive_over w now c bytes from_path c.multipath
step w now c (tun_packet packet) =
    if c.tun_dev then tun_read w.write_ok w.conn_ok c packet else returns (c, [])
step w now c (send_call payload) =
    let (result, error) = send_payload w.write_ok w.conn_ok c payload in returns result
step w now c (change added removed) = change_paths w now added removed c c.multipath

-- The events in their order, each with its time and the outside's answers.
unfoldable pub run : Client → List (World × ℕ × Event) → Run ClientStep
run c [] = returns (c, [])
run c ((w, now, event) ∷ rest) = do
  (c', effects) ← step w now c event
  (c'', more) ← run c' rest
  returns (c'', effects ++ more)
