-- ===== src/Server/Heartbeat/Register.antt =====
-- What an accepted heartbeat leaves in the server: the session, the address of its sender, the route.
use mpfpv.Prelude.{
  ℕ, ◌≡◌, ◌≢◌, refl, sym, ◌∙◌, ap, arith, List, [], ◌∷◌, ◌++◌, false, none, some, ◌==◌, ==_refl,
  nat_eq, bytes_beq_iff, ◌⊎◌, Bool-cases, inl, inr,
}
use mathlib.Core.List.{append_assoc}
use mpfpv.Prelude.Map.{Map, lookup, insert, lookup-insert, beq_refl}
use mpfpv.Protocol.Packet.{Header, HeartbeatPayload, PathRtt, uint32_at, ack_status_ok}
use mpfpv.Server.State.{Addr, addr_eq, AddrInfo, ClientSession, Server, Effect}
use mpfpv.Server.Send.{send_heartbeat_ack}
use mpfpv.Server.Heartbeat.{
  drop_stale, touch_addr, answer, accept, accept_new, accept_known, register, add_route, persist_ip,
  refresh, check_heartbeat, known_addr,
}
use mpfpv.Server.Pool.{is_named}

pub lookup-drop_stale :
    (from : Addr) (name : List ℕ) (addrs : Map Addr AddrInfo)
    → lookup from (drop_stale from name addrs) ≡ lookup from addrs
unfolding drop_stale lookup
lookup-drop_stale from name [] = refl
lookup-drop_stale from name ((k, ai) ∷ rest) = ground (arith, lookup-drop_stale from name rest)

-- The sender's address has been seen now.
pub record IsSeen (now : ℕ) (from : Addr) (addrs : Map Addr AddrInfo) : Type 0 where
  pub info : AddrInfo
  pub found : lookup from addrs ≡ some info
  pub seen : info.last_seen ≡ now

last_seen-known_addr :
    (now : ℕ) (from : Addr) (addrs : Map Addr AddrInfo)
    → (known_addr now from addrs).last_seen ≡ now
last_seen-known_addr now from addrs = ground arith

insert-IsSeen :
    (now : ℕ) (from : Addr) (addrs : Map Addr AddrInfo) (ai : AddrInfo)
    → ai.last_seen ≡ now
    → IsSeen now from (insert from ai addrs)
insert-IsSeen now from addrs ai e = record {
  info = ai;
  found = rw (lookup-insert from from ai addrs, beq_refl from) refl;
  seen = e;
}

touch_addr-IsSeen :
    (now : ℕ) (from : Addr) (paths : List PathRtt) (addrs : Map Addr AddrInfo)
    → IsSeen now from (touch_addr now from paths addrs)
unfolding touch_addr
touch_addr-IsSeen now from [] addrs =
    insert-IsSeen now from addrs _ (last_seen-known_addr now from addrs)
touch_addr-IsSeen now from (p ∷ more) addrs =
    let ai : AddrInfo = record (known_addr now from addrs) {
      nic_name = p.name;
      nic_rtt_ms = p.rtt_ms;
      nic_tx_bytes = p.tx_bytes;
      nic_rx_bytes = p.rx_bytes;
    } in
    let added = insert-IsSeen now from addrs ai (last_seen-known_addr now from addrs) in
    elim (Bool-cases (is_named p.name)) [
      | inr unnamed ↦ rw unnamed added
      | inl name' ↦ rw name' (record {
        info = added.info;
        found = lookup-drop_stale from p.name (insert from ai addrs) ∙ added.found;
        seen = added.seen;
      })
    ]

-- The client has a session in which the sender's address is fresh, and the last datagram is an
-- acknowledgement to the sender with the session's address.
pub record IsRegistered (now c : ℕ) (from : Addr) (t : Server) (es : List Effect) : Type 0 where
  pub session : ClientSession
  pub known : lookup c t.sessions ≡ some session
  pub is_seen : IsSeen now from session.addrs
  pub before : Server
  pub earlier : List Effect
  pub acked :
      es
      ≡ earlier
        ++ (send_heartbeat_ack before from session.virtual_ip session.prefix_len ack_status_ok).1

answer-IsRegistered :
    (now : ℕ) (s : Server) (c : ℕ) (hb : HeartbeatPayload) (from : Addr) (session : ClientSession)
    → (r : IsRegistered now c from
        (answer now s c hb from session).0
        (answer now s c hb from session).1)
      × (r.session.virtual_ip ≡ session.virtual_ip)
unfolding answer send_heartbeat_ack
answer-IsRegistered now s c hb from session =
    let session' : ClientSession = record session {
      addrs = touch_addr now from hb.path_rtts session.addrs;
    } in
    (
      record {
        session = session';
        known = rw (lookup-insert c c session' s.sessions, ==_refl c) refl;
        is_seen = touch_addr-IsSeen now from hb.path_rtts session.addrs;
        before = record s { sessions = insert c session' s.sessions };
        earlier = [];
        acked = refl;
      },
      refl,
    )

routes-answer :
    (now : ℕ) (s : Server) (c : ℕ) (hb : HeartbeatPayload) (from : Addr) (session : ClientSession)
    → (answer now s c hb from session).0.route_table ≡ s.route_table
unfolding answer send_heartbeat_ack
routes-answer now s c hb from session = refl

pub check_heartbeat-accept :
    (now : ℕ) (s : Server) (hdr : Header) (hb : HeartbeatPayload) (from : Addr)
    → hb.team_key_hash ≡ s.team_key_hash
    → hdr.client_id ≢ 0
    → check_heartbeat now s hdr hb from ≡ accept now s hdr.client_id hb from
unfolding check_heartbeat
check_heartbeat-accept now s hdr hb from key named =
    ground (arith, (bytes_beq_iff hb.team_key_hash s.team_key_hash).1 key, named)

pub accept-known :
    (now : ℕ) (s : Server) (c : ℕ) (hb : HeartbeatPayload) (from : Addr) (session : ClientSession)
    → lookup c s.sessions ≡ some session
    → (uint32_at hb.virtual_ip 0 ≡ 0) ⊎ (uint32_at hb.virtual_ip 0 ≡ session.virtual_ip)
    → accept now s c hb from ≡ answer now s c hb from (refresh now hb session)
unfolding accept accept_known
accept-known now s c hb from session known (inl asks) = rw (known, accept) (ground (arith, asks))
accept-known now s c hb from session known (inr same) = rw (known, accept) (ground (arith, same))

pub accept-new :
    (now : ℕ) (s : Server) (c : ℕ) (hb : HeartbeatPayload) (from : Addr)
    → lookup c s.sessions ≡ none
    → accept now s c hb from ≡ accept_new now s c (uint32_at hb.virtual_ip 0) hb from
unfolding accept
accept-new now s c hb from new = rw (new, accept) refl

persist_ip-route :
    (s : Server) (c ip : ℕ) (name : List ℕ) → (persist_ip s c ip name).0.route_table ≡ s.route_table
unfolding persist_ip
persist_ip-route s c ip name = ground arith

register-route :
    (now : ℕ) (s : Server) (c vip : ℕ) (hb : HeartbeatPayload)
    → (register now s c vip hb).1.virtual_ip ≢ 0
    → lookup (register now s c vip hb).1.virtual_ip (register now s c vip hb).0.0.route_table
      ≡ some c
unfolding register add_route
register-route now s c vip hb nonzero =
    let ip = (register now s c vip hb).1.virtual_ip in
    let no_zero : (ip == 0) ≡ false = ground (arith, nonzero) in
    rw (no_zero) (rw (persist_ip-route) (rw (lookup-insert, ==_refl ip) refl))

-- A heartbeat with the team's key from a client with a session, which names the session's address
-- or asks with 0.0.0.0, leaves a session with the same address in which the sender's address is
-- seen now, and ends with an acknowledgement to the sender that carries the session's address and
-- status OK.
pub accept_known-IsRegistered :
    (now : ℕ) (s : Server) (hdr : Header) (hb : HeartbeatPayload) (from : Addr)
    (session : ClientSession)
    → hb.team_key_hash ≡ s.team_key_hash
    → hdr.client_id ≢ 0
    → lookup hdr.client_id s.sessions ≡ some session
    → (uint32_at hb.virtual_ip 0 ≡ 0) ⊎ (uint32_at hb.virtual_ip 0 ≡ session.virtual_ip)
    → let (t, es) = check_heartbeat now s hdr hb from in
      (r : IsRegistered now hdr.client_id from t es) × (r.session.virtual_ip ≡ session.virtual_ip)
accept_known-IsRegistered now s hdr hb from session key named known same =
    rw
      (check_heartbeat-accept now s hdr hb from key named
        ∙ accept-known now s hdr.client_id hb from session known same)
      (answer-IsRegistered now s hdr.client_id hb from (refresh now hb session))

-- A heartbeat with the team's key from a client without a session leaves a session in which the
-- sender's address is seen now and ends with an acknowledgement to the sender that carries the
-- session's address and status OK; if that address is not 0.0.0.0, the route table leads from it
-- to the client.
pub accept_new-IsRegistered :
    (now : ℕ) (s : Server) (hdr : Header) (hb : HeartbeatPayload) (from : Addr)
    → hb.team_key_hash ≡ s.team_key_hash
    → hdr.client_id ≢ 0
    → lookup hdr.client_id s.sessions ≡ none
    → let (t, es) = check_heartbeat now s hdr hb from in
      (r : IsRegistered now hdr.client_id from t es) × (r.session.virtual_ip ≢ 0
        → lookup r.session.virtual_ip t.route_table ≡ some hdr.client_id)
unfolding accept_new
accept_new-IsRegistered now s hdr hb from key named new =
    let vip = uint32_at hb.virtual_ip 0 in
    let ((s', saved), session) = register now s hdr.client_id vip hb in
    let (r, same) = answer-IsRegistered now s' hdr.client_id hb from session in
    rw
      (check_heartbeat-accept now s hdr hb from key named
        ∙ accept-new now s hdr.client_id hb from new)
      (
        record {
          session = r.session;
          known = r.known;
          is_seen = r.is_seen;
          before = r.before;
          earlier = saved ++ r.earlier;
          acked = ap (λ es. saved ++ es) r.acked ∙ sym (append_assoc saved r.earlier _);
        },
        λ nonzero.
            rw (same, routes-answer)
              (register-route now s hdr.client_id vip hb (λ e. nonzero (same ∙ e))),
      )
