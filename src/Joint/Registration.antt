-- ===== src/Joint/Registration.antt =====
-- The first heartbeat of a client, the server's answer, and the client that takes it:
-- internal/client/client.go and internal/server/server.go.
use mpfpv.Prelude.{
  ℕ, ◌≡◌, ◌≢◌, ◌⊎◌, ◌^◌, ◌<◌, refl, sym, ap, subst, true, false, ◌∙◌, arith, List, [], ◌∷◌, ◌++◌,
  Bool, Option, none, some, length, inl, inr, nat_eq, ==_refl, Option-cases,
}
use mathlib.Core.List.{append_assoc, append-nil}
use mpfpv.Prelude.Map.{lookup, insert, lookup-insert}
use mpfpv.Prelude.Words.{u16}
use mpfpv.Prelude.Outcome.{returns}
use mpfpv.Protocol.Packet.{Header, HeartbeatPayload, uint32_at, ack_status_ok, type_heartbeat}
use mpfpv.Server.State.{Addr, addr_eq, ClientSession, Server, Subnet, Effect, udp, Step}
use mpfpv.Server.Pool.{allocate_ip, allocate_pooled, allocate_new, take_free, set_name}
use mpfpv.Server.Send.{send_heartbeat_ack}
use mpfpv.Server.Heartbeat.{
  check_heartbeat, answer, accept_new, register, assign_ip, add_route, persist_ip, touch_addr,
  refresh,
}
use mpfpv.Server.Heartbeat.Register.{check_heartbeat-accept, accept-known, accept-new}
use mpfpv.Server.Heartbeat.Replies.{IsAck, send_heartbeat_ack-IsAck}
use mpfpv.Server.Data.{handle_packet, count_rx}
use mpfpv.Client.State.{Client, conn_udp}
use mpfpv.Client.Sending.{
  send_heartbeat, heartbeat_over, virtual_suffix, next_seq, heartbeat_bytes, header_of,
}
use mpfpv.Client.Receiving.{receive}
use mpfpv.Client.Receiving.Acks.{LeavesAddress, receive-LeavesAddress}
use mpfpv.Joint.Heartbeat.{IsBeating, beat_of, handle_packet-heartbeat_bytes}

-- The client has a session, and the last datagram tells it the session's address.
pub record IsAnswered (c : ℕ) (from : Addr) (step : Step) : Type 0 where
  pub session : ClientSession
  pub known : lookup c step.0.sessions ≡ some session
  pub earlier : List Effect
  pub ack : List ℕ
  pub sent : step.1 ≡ earlier ++ udp from ack ∷ []
  pub seq : ℕ
  pub mtu : ℕ
  pub is_ack : IsAck ack seq session.virtual_ip session.prefix_len ack_status_ok mtu

answer-IsAnswered :
    (now : ℕ) (s : Server) (c : ℕ) (hb : HeartbeatPayload) (from : Addr) (session : ClientSession)
    → s.seq < 2 ^ 32
    → IsAnswered c from (answer now s c hb from session)
unfolding answer send_heartbeat_ack
answer-IsAnswered now s c hb from session small =
    let session' : ClientSession = record session {
      addrs = touch_addr now from hb.path_rtts session.addrs;
    } in
    let s' : Server = record s { sessions = insert c session' s.sessions } in
    let (bytes, e, is_ack, _) =
      send_heartbeat_ack-IsAck s' from session.virtual_ip session.prefix_len ack_status_ok small in
    record {
      session = session';
      known = rw (lookup-insert c c session' s.sessions, ==_refl c) refl;
      earlier = [];
      ack = bytes;
      sent = e;
      seq = s.seq;
      mtu = u16 s.mtu;
      is_ack = is_ack;
    }

seq-take_free : (s : Server) (c : ℕ) (subnet : Subnet) → (take_free s c subnet).0.0.seq ≡ s.seq
unfolding take_free
seq-take_free s c subnet = ground arith

seq-allocate_new : (s : Server) (c : ℕ) (o : Option Subnet) → (allocate_new s c o).0.0.seq ≡ s.seq
seq-allocate_new s c none = refl
seq-allocate_new s c (some subnet) = seq-take_free s c subnet

seq-allocate_pooled :
    (s : Server) (c : ℕ) (name : List ℕ) (o : Option ℕ)
    → (allocate_pooled s c name o).0.0.seq ≡ s.seq
seq-allocate_pooled s c name (some ip) = refl
seq-allocate_pooled s c name none = seq-allocate_new s c s.subnet

seq-allocate_ip : (s : Server) (c : ℕ) (name : List ℕ) → (allocate_ip s c name).0.0.seq ≡ s.seq
unfolding allocate_ip
seq-allocate_ip s c name =
    seq-allocate_pooled (set_name s c name) c name (lookup c (set_name s c name).ip_pool)

seq-register :
    (now : ℕ) (s : Server) (c vip : ℕ) (hb : HeartbeatPayload)
    → (register now s c vip hb).0.0.seq ≡ s.seq
unfolding register assign_ip add_route persist_ip
seq-register now s c vip hb = ground (arith, seq-allocate_ip s c hb.device_name)

-- A heartbeat with the team's key, from a client that asks for an address with 0.0.0.0.
check_heartbeat-IsAnswered :
    (now : ℕ) (s : Server) (hdr : Header) (hb : HeartbeatPayload) (from : Addr)
    → hb.team_key_hash ≡ s.team_key_hash
    → hdr.client_id ≢ 0
    → uint32_at hb.virtual_ip 0 ≡ 0
    → s.seq < 2 ^ 32
    → IsAnswered hdr.client_id from (check_heartbeat now s hdr hb from)
unfolding accept_new
check_heartbeat-IsAnswered now s hdr hb from key named asks small =
    elim (Option-cases (lookup hdr.client_id s.sessions)) [
      | inr (session, known) ↦
          rw
            (check_heartbeat-accept now s hdr hb from key named
              ∙ accept-known now s hdr.client_id hb from session known (inl asks))
            (answer-IsAnswered now s hdr.client_id hb from (refresh now hb session) small)
      | inl new ↦
          let vip = uint32_at hb.virtual_ip 0 in
          let ((s', saved), session) = register now s hdr.client_id vip hb in
          let a =
            answer-IsAnswered now s' hdr.client_id hb from session
              (rw (seq-register now s hdr.client_id vip hb) small) in
          rw
            (check_heartbeat-accept now s hdr hb from key named
              ∙ accept-new now s hdr.client_id hb from new)
            (record {
              session = a.session;
              known = a.known;
              earlier = saved ++ a.earlier;
              ack = a.ack;
              sent = ap (λ es. saved ++ es) a.sent ∙ sym (append_assoc saved a.earlier _);
              seq = a.seq;
              mtu = a.mtu;
              is_ack = a.is_ack;
            })
    ]

count_rx-keeps :
    (s : Server) (c : ℕ) (from : Addr) (n : ℕ)
    → ((count_rx s c from n).team_key_hash ≡ s.team_key_hash) × ((count_rx s c from n).seq ≡ s.seq)
unfolding count_rx
count_rx-keeps s c from n = ground arith

module _ (paths_ok : List ℕ → Bool) (conn_ok : Bool) (now : ℕ) (c : Client)
    (single : c.multipath ≡ none) where
  send_heartbeat-single :
      c.virtual_path_name ≡ []
      → (send_heartbeat paths_ok conn_ok now c).0.1 ≡ conn_udp (heartbeat_bytes c) ∷ []
  unfolding send_heartbeat
  send_heartbeat-single unnamed =
      let none' : virtual_suffix c ≡ [] = rw unnamed refl in
      subst
        (λ o.
          (heartbeat_over paths_ok conn_ok (record (next_seq c) { last_heartbeat_sent = some now })
            (heartbeat_bytes c) (virtual_suffix c) o).0.1
          ≡ conn_udp (heartbeat_bytes c) ∷ [])
        (sym single) (rw (none', append-nil (heartbeat_bytes c)) refl)

  send_heartbeat-ready :
      (c.registered ≡ true) ⊎ (c.tun_ready_closed ≡ false)
      → let c' = (send_heartbeat paths_ok conn_ok now c).0.0 in
        (c'.registered ≡ true) ⊎ (c'.tun_ready_closed ≡ false)
  unfolding send_heartbeat
  send_heartbeat-ready ready =
      subst
        (λ o.
          let c' =
            (heartbeat_over paths_ok conn_ok
              (record (next_seq c) { last_heartbeat_sent = some now }) (heartbeat_bytes c)
              (virtual_suffix c) o).0.0 in
          (c'.registered ≡ true) ⊎ (c'.tun_ready_closed ≡ false))
        (sym single) ready

-- The heartbeat of a client in single-socket mode without a virtual path, which has the team's key
-- and asks with 0.0.0.0, is one datagram; the server takes it, has a session for the client, and
-- answers last with an acknowledgement to the sender; and the client that receives it is
-- registered with the address and the prefix length of that session. The numbers fit their fields,
-- the device's name has no zero byte, and the TUN channel is open or the client is registered
-- already.
pub send_heartbeat-registers :
    (write_ok : Addr → Bool) (paths_ok : List ℕ → Bool) (conn_ok : Bool)
    (tun_ok : List ℕ → ℕ → Bool) (now then' later : ℕ) (c : Client) (s : Server) (from : Addr)
    → IsBeating c
    → c.multipath ≡ none
    → c.virtual_path_name ≡ []
    → uint32_at c.virtual_ip 0 ≡ 0
    → c.team_key_hash ≡ s.team_key_hash
    → (c.registered ≡ true) ⊎ (c.tun_ready_closed ≡ false)
    → s.seq < 2 ^ 32
    → (bytes : List ℕ) × (t : Server) × (earlier : List Effect) × (ack : List ℕ)
      × (session : ClientSession) × ((send_heartbeat paths_ok conn_ok now c).0.1
          ≡ conn_udp bytes ∷ [])
      × (handle_packet write_ok then' s bytes from ≡ returns (t, earlier ++ udp from ack ∷ []))
      × (lookup c.client_id t.sessions ≡ some session)
      × LeavesAddress session.virtual_ip session.prefix_len
          (receive tun_ok later (send_heartbeat paths_ok conn_ok now c).0.0 ack)
send_heartbeat-registers write_ok paths_ok conn_ok tun_ok now then' later c s from valid single
      unnamed asks key ready small =
    let counted : Server = count_rx s c.client_id from (length (heartbeat_bytes c)) in
    let (same_key, same_seq) = count_rx-keeps s c.client_id from (length (heartbeat_bytes c)) in
    let a =
      check_heartbeat-IsAnswered then' counted (header_of c type_heartbeat) (beat_of c valid) from
        (key ∙ sym same_key) (omega (arith, valid.numbered.positive)) asks (rw same_seq small) in
    (
      heartbeat_bytes c,
      (check_heartbeat then' counted (header_of c type_heartbeat) (beat_of c valid) from).0,
      a.earlier,
      a.ack,
      a.session,
      send_heartbeat-single paths_ok conn_ok now c single unnamed,
      handle_packet-heartbeat_bytes c valid write_ok then' s from
          ∙ ap
              (λ es. returns (
                (check_heartbeat then' counted (header_of c type_heartbeat) (beat_of c valid)
                    from).0,
                es,
              ))
              a.sent,
      a.known,
      receive-LeavesAddress tun_ok (send_heartbeat paths_ok conn_ok now c).0.0
          (send_heartbeat-ready paths_ok conn_ok now c single ready) later a.ack a.seq
          a.session.virtual_ip a.session.prefix_len a.mtu a.is_ack,
    )
