-- ===== src/Server/Heartbeat/Nics.antt =====
-- The addresses of a session after a heartbeat that names its NIC, in handleHeartbeat of
-- internal/server/server.go.
use mpfpv.Prelude.{
  ℕ, ◌≡◌, ◌≢◌, ◌⊎◌, refl, ◌∙◌, arith, List, [], ◌∷◌, true, false, Option, none, some, if◌then◌else◌,
  if_elim, if_false, not, ◌&&◌, Bool-cases, inl, inr, ==_refl, nat_eq, bytes_beq,
}
use mpfpv.Prelude.Map.{Map, HasDistinctKeys, lookup, insert, lookup-insert, beq_refl}
use mpfpv.Protocol.Packet.{Header, HeartbeatPayload, PathRtt, uint32_at}
use mpfpv.Server.State.{Addr, addr_beq, addr_beq_iff, addr_eq, AddrInfo, ClientSession, Server}
use mpfpv.Server.Pool.{is_named}
use mpfpv.Server.Send.{send_heartbeat_ack}
use mpfpv.Server.Heartbeat.{drop_stale, touch_addr, known_addr, answer, refresh, check_heartbeat}
use mpfpv.Server.Heartbeat.Register.{lookup-drop_stale, check_heartbeat-accept, accept-known}

-- The record of the sender's address with the data of the NIC.
abbrev on_nic : ℕ → Addr → PathRtt → Map Addr AddrInfo → AddrInfo
on_nic now from p addrs = record (known_addr now from addrs) {
  nic_name = p.name;
  nic_rtt_ms = p.rtt_ms;
  nic_tx_bytes = p.tx_bytes;
  nic_rx_bytes = p.rx_bytes;
}

-- A record of another address goes if it carries the NIC's name.
abbrev unless_nic : List ℕ → Option AddrInfo → Option AddrInfo
unless_nic name none = none
unless_nic name (some ai) = if bytes_beq ai.nic_name name then none else some ai

drop_stale-absent :
    (from key : Addr) (name : List ℕ) (addrs : Map Addr AddrInfo)
    → lookup key addrs ≡ none
    → lookup key (drop_stale from name addrs) ≡ none
unfolding drop_stale lookup
drop_stale-absent from key name [] absent = refl
drop_stale-absent from key name ((k, ai) ∷ rest) absent =
    ground (arith, drop_stale-absent from key name rest, absent)

lookup-drop_stale_other :
    (from other : Addr) (name : List ℕ) (addrs : Map Addr AddrInfo)
    → HasDistinctKeys addrs
    → addr_beq from other ≡ false
    → lookup other (drop_stale from name addrs) ≡ unless_nic name (lookup other addrs)
unfolding drop_stale lookup
lookup-drop_stale_other from other name [] distinct differs = refl
lookup-drop_stale_other from other name ((k, ai) ∷ rest) (absent, distinct) differs = ground (
  arith,
  addr_beq_iff k other,
  addr_beq_iff k from,
  addr_beq_iff from other,
  absent,
  drop_stale-absent from k name rest absent,
  lookup-drop_stale_other from other name rest distinct differs,
)

drop_stale-HasDistinctKeys :
    (from : Addr) (name : List ℕ) (addrs : Map Addr AddrInfo)
    → HasDistinctKeys addrs
    → HasDistinctKeys (drop_stale from name addrs)
unfolding drop_stale
drop_stale-HasDistinctKeys from name [] distinct = distinct
drop_stale-HasDistinctKeys from name ((k, ai) ∷ rest) (absent, distinct) =
    if_elim HasDistinctKeys (not (addr_beq k from) && bytes_beq ai.nic_name name) _ _
      (λ _. drop_stale-HasDistinctKeys from name rest distinct)
      (λ _. (
        drop_stale-absent from k name rest absent,
        drop_stale-HasDistinctKeys from name rest distinct,
      ))

pub insert-HasDistinctKeys :
    (key : Addr) (ai : AddrInfo) (addrs : Map Addr AddrInfo)
    → HasDistinctKeys addrs
    → HasDistinctKeys (insert key ai addrs)
unfolding insert lookup
insert-HasDistinctKeys key ai [] distinct = (refl, distinct)
insert-HasDistinctKeys key ai ((k, old) ∷ rest) (absent, distinct) =
    elim (Bool-cases (addr_beq k key)) [
      | inl same ↦
          let e : k ≡ key = (addr_beq_iff k key).0 same in rw same (rw (← e) absent, distinct)
      | inr differs ↦ rw differs (
        lookup-insert key k ai rest
            ∙ rw (if_false (addr_beq key k) (some ai) (lookup k rest) (ground (arith, differs)))
                absent,
        insert-HasDistinctKeys key ai rest distinct,
      )
    ]

-- The table of addresses after a heartbeat that names its NIC.
pub record IsMoved (now : ℕ) (from : Addr) (p : PathRtt) (before after : Map Addr AddrInfo)
    : Type 0 where
  pub distinct : HasDistinctKeys after
  pub sender : lookup from after ≡ some (on_nic now from p before)
  pub others :
      (other : Addr) → other ≢ from → lookup other after ≡ unless_nic p.name (lookup other before)

touch_addr-IsMoved :
    (now : ℕ) (from : Addr) (p : PathRtt) (more : List PathRtt) (addrs : Map Addr AddrInfo)
    → is_named p.name ≡ true
    → HasDistinctKeys addrs
    → IsMoved now from p addrs (touch_addr now from (p ∷ more) addrs)
unfolding touch_addr
touch_addr-IsMoved now from p more addrs named distinct =
    let ai = on_nic now from p addrs in
    let added = insert-HasDistinctKeys from ai addrs distinct in
    rw named (record {
      distinct = drop_stale-HasDistinctKeys from p.name (insert from ai addrs) added;
      sender =
          lookup-drop_stale from p.name (insert from ai addrs)
          ∙ rw (lookup-insert from from ai addrs, beq_refl from) refl;
      others = λ other differs.
          let apart : addr_beq from other ≡ false =
            ground (arith, addr_beq_iff from other, differs) in
          lookup-drop_stale_other from other p.name (insert from ai addrs) added apart
          ∙ rw (lookup-insert from other ai addrs, apart) refl;
    })

-- A heartbeat that names its NIC, with the team's key, from a client with a session whose address it
-- names or asks for.
pub check_heartbeat-IsMoved :
    (now : ℕ) (s : Server) (hdr : Header) (hb : HeartbeatPayload) (from : Addr)
    (session : ClientSession) (p : PathRtt) (more : List PathRtt)
    → hb.team_key_hash ≡ s.team_key_hash
    → hdr.client_id ≢ 0
    → lookup hdr.client_id s.sessions ≡ some session
    → (uint32_at hb.virtual_ip 0 ≡ 0) ⊎ (uint32_at hb.virtual_ip 0 ≡ session.virtual_ip)
    → hb.path_rtts ≡ p ∷ more
    → is_named p.name ≡ true
    → HasDistinctKeys session.addrs
    → (moved : ClientSession) × (lookup hdr.client_id (check_heartbeat now s hdr hb from).0.sessions
        ≡ some moved)
      × IsMoved now from p session.addrs moved.addrs
unfolding answer send_heartbeat_ack
check_heartbeat-IsMoved now s hdr hb from session p more key known_id known same paths named
      distinct =
    let moved : ClientSession = record (refresh now hb session) {
      addrs = touch_addr now from hb.path_rtts session.addrs;
    } in
    (
      moved,
      rw
          (check_heartbeat-accept now s hdr hb from key known_id
            ∙ accept-known now s hdr.client_id hb from session known same)
          (rw (lookup-insert hdr.client_id hdr.client_id moved s.sessions, ==_refl hdr.client_id)
            refl),
      rw paths (touch_addr-IsMoved now from p more session.addrs named distinct),
    )
