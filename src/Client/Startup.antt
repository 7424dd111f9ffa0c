-- ===== src/Client/Startup.antt =====
-- The start of Run of internal/client/client.go: the choice of its sockets.
pub mod Lifetime
use mpfpv.Prelude.{
  ℕ, List, [], ◌∷◌, Bool, true, false, not, ◌&&◌, Option, none, some, if◌then◌else◌,
}
use mpfpv.Prelude.Map.{Map}
use mpfpv.Prelude.Outcome.{Result, ok, err}
use mpfpv.Config.{is_empty}
use mpfpv.Transport.Paths.{Sender}
use mpfpv.Transport.Changes.{InterfaceInfo}
use mpfpv.Transport.Starting.{new_sender, start_sender}
use mpfpv.Client.State.{Client}
use mpfpv.Client.Binding.{BindError, resolve_interface_addr}

-- What the system answers: the addresses of the interface to bind to, whether a socket can be opened
-- on an address and on none, the two families of the central socket with its port, the first scan of
-- the interfaces, and the sockets of the paths.
pub record Sockets : Type 0 where
  pub bind_addrs : Option (Option (List (List ℕ)))
  pub can_listen_on : List ℕ → Bool
  pub can_listen : Bool
  pub is_loopback : Bool
  pub can_listen6 : Bool
  pub can_listen4 : Bool
  pub recv_port : ℕ
  pub scanned : Map (List ℕ) InterfaceInfo
  pub server_is_ipv4 : Bool
  pub can_bind_addr : List ℕ → List ℕ → Bool

pub data RunError : Type 0 where
  bind_failed : BindError → RunError
  listen_failed : RunError

abbrev pub bound : Sockets → Client → Result BindError (List ℕ) → Result RunError Client
bound w c (err e) = err (bind_failed e)
bound w c (ok addr) = if w.can_listen_on addr then ok c else err listen_failed

-- A socket that is not bound, unless SetConn has given one.
abbrev pub unbound : Sockets → Bool → Client → Result RunError Client
unbound w has_conn c = if has_conn then ok c else if w.can_listen then ok c else err listen_failed

-- If the sender does not start, the client falls back to a single socket.
abbrev pub multipath_or : Sockets → Bool → Client → Option Sender → Result RunError Client
multipath_or w has_conn c none = unbound w has_conn c
multipath_or w has_conn c (some m) = ok (record c { multipath = some m; recv_port = w.recv_port })

unfoldable pub set_up : Sockets → ℕ → List ℕ → Bool → Client → Result RunError Client
set_up w now bind_interface has_conn c =
    if not (is_empty bind_interface)
    then bound w c (resolve_interface_addr w.bind_addrs)
    else if not w.is_loopback && not has_conn
    then multipath_or w has_conn c (
        start_sender w.server_is_ipv4 w.can_bind_addr w.can_listen6 w.can_listen4 now w.scanned
          (new_sender c.send_mode))
    else unbound w has_conn c
