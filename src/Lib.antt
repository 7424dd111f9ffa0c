-- ===== src/Lib.antt =====
-- mpfpv: a relay that carries the IP packets of a virtual network over UDP, with redundant paths. A
-- client sends every packet over one or all of its network paths; the server drops the copies, checks
-- the sender and passes one on to the client that has the destination address, over all of that
-- client's addresses or the active one. Heartbeats register the clients, give them virtual addresses
-- and keep their source addresses fresh.
--
-- The parts, and the files that model them:
--
--   Prelude        Shared names, tests on numbers, lists and Go maps with their laws, machine words,
--                  Go's results (`Result`) and run-time panics (`Run`), slices, sorting.
--   Bits           `&` and `|` on numbers, by digits.
--   Protocol       internal/protocol. `Protocol.Dedup` is dedup.go: `is_duplicate` is
--                  `IsDuplicate`, `reset` is `Reset`, on the bitmap of 64-bit words. Its abstract
--                  description is `Protocol.Dedup.Window`, a window of the packets received;
--                  `Refine` relates the two, `History` and `Clients` follow them over calls.
--                  `Protocol.Packet` is packet.go and types.go, an encoder or decoder per function,
--                  and the suffix that internal/transport/multipath.go appends to a heartbeat.
--   Server         internal/server. `State` has the structs of server.go and the calls to the
--                  outside (`Effect`); a handler is a function from the state to the next one and
--                  its effects in order. `Pool` is allocateIP, `Pool.Saving` saveIPPool and loadIPPool on
--                  a map of files, `Send` sendToClient and
--                  sendHeartbeatAck, `Heartbeat` handleHeartbeat, `Data` handlePacket, handleData and
--                  the body of tunReadLoop, `Cleanup` cleanup, `Admin` the operations of webapi.go
--                  that change the state, `Stats` its statistics, and `Queries` its other queries.
--   Transport      internal/transport/multipath.go. `Paths` has the path states, RTT samples and the
--                  choice of the active path, `Output` Send, SendAll and SendAllHeartbeat, `Recycle`
--                  CheckAndRecycleStalePaths and recyclePath, `Changes` addPath, removePath and
--                  onInterfaceChange, `Open` the paths whose channels are open, `Starting`
--                  NewMultiPathSender, Start and Stop. `Watcher` is
--                  iface.go, from the interfaces that the system reports to the changes.
--   Config         internal/config/config.go: the defaults, the validation, and the file.
--   Client         internal/client/client.go. `State` is the struct and New, `Checksum`
--                  recalcIPv4Checksum, `Sending` tunReadLoop, sendHeartbeat and Send, `Receiving` the
--                  two receive loops with handleHeartbeatAck and handleData, `Startup` the choice of the
--                  sockets at the start of Run, `Running` the rounds of the loops that it starts, as
--                  events in some order, and `Binding` resolveInterfaceAddr.
--   Joint          The client and the server together: a registration, a heartbeat on one of several
--                  paths, and a packet's way from a client's TUN device to the server, and on to
--                  another client's.
--   Web            internal/web/handler.go: the handlers of the server's mode, with
--                  UpdateServerConfig of internal/server/webapi.go, and in `ClientMode` those of the
--                  client's, with internal/client/webapi.go. An answer is its status.
--   Lifecycle      The goroutine that runs a client, as the three controllers below start it. A
--                  client, its context and its goroutine are one number.
--   Windows        windows/controller.go, the controller of the simplified GUI: `connect_locked` here,
--                  the other critical sections in `Steps`, where `Event` and `run` put them in some
--                  order: calls, ends of clients, and turns of the watchers of the interface.
--   Gui            cmd/mpfpv-gui/controller.go, and in `Endpoints` registerGUIEndpoints and
--                  listPhysicalInterfaces of internal/web/handler.go.
--   Mobile         mobile/mobile.go: Start, in two steps, Stop, and the two goroutines, in `Steps`; in
--                  `Port` the port of the web interface.
--   Tests          Runs at concrete inputs.
--
-- A byte or a machine word is a number of the native ℕ, with its wrap-around written out; an IPv4
-- address in the server is the number that its bytes spell. A Go map is an association list whose
-- order is that of an iteration. Time is a number that a handler is given. The locks make the handlers
-- atomic as far as each part goes, so that concurrency is an order of calls; a function that gives its
-- lock back in between is several steps. Loops are recursion on a
-- list or on the number of rounds left; the carry loop of the checksum, which has no such number, has a
-- bound of two rounds, and `Client.Checksum.Folding` shows that it needs no more.
--
-- Parameters: SHA-256, strings.TrimSpace, the JSON of the pool's file, what the system says of its
-- interfaces, whether a write to an address or on a path succeeds, whether a socket can be
-- bound to an interface or a TUN device created, FNV-1a, the machine's ID, the host's name, YAML, and
-- what net.ParseIP, net.SplitHostPort, net.ParseCIDR and net.ResolveUDPAddr make of a text.
--
-- Not modelled: logging (but for its arguments, which may panic), sockets, goroutines and tickers, TUN
-- devices, the JSON of the web interface, the windows of the GUIs, and the commands; Server.New, which
-- reads the server's section into the state; net/http, which matches a request with its pattern: a
-- route is given.
--
-- Three things that the code can do are outside the models of the client and the server. A subnet of
-- IPv6 makes allocateIP panic, and the state cannot hold one. A window of the deduplicator that is 0 or
-- above 2 ^ 32 - 64 as a uint32 makes its indexes panic; client and server use `is_duplicate`, which has
-- no panics. `Protocol.Dedup.Panics` has the same code with them and compares the two,
-- `Protocol.Dedup.Sound` says when there are none, and where a statement is about panics it has that as
-- a condition. And removePath is one step, although it closes the path's channel without the lock, so
-- that the path may be recycled in between.
pub mod Prelude
pub mod Bits
pub mod Protocol
pub mod Server
pub mod Transport
pub mod Client
pub mod Config
pub mod Joint
pub mod Web
pub mod Tests
pub mod Lifecycle
pub mod Windows
pub mod Mobile
pub mod Gui
