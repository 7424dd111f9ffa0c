-- ===== src/Server/Data/Counting.antt =====
-- What handlePacket of internal/server/server.go counts of a datagram before it looks at its type.
use mpfpv.Prelude.{
  ℕ, ◌+◌, ◌%◌, ◌^◌, ◌≡◌, ◌≢◌, refl, sym, ap, ◌∙◌, arith, List, [], ◌∷◌, Bool, true, false, drop,
  Option, none, some, ◌==◌, if◌then◌else◌, nat_eq, ==_refl, Option-cases, inl, inr,
}
use mpfpv.Prelude.Map.{Map, lookup, insert, lookup-insert}
use mpfpv.Protocol.Packet.{Header, header_size, type_data, type_heartbeat}
use mpfpv.Server.State.{Addr, addr_beq, addr_beq_iff, addr_eq, AddrInfo, ClientSession, Server}
use mpfpv.Server.Data.{count_rx, update_addr, dispatch, handle_data}
use mpfpv.Server.Heartbeat.{handle_heartbeat}

-- The bytes are added to those of the sender's address, if the session has it.
abbrev pub with_bytes : Addr → ℕ → Map Addr AddrInfo → Map Addr AddrInfo
with_bytes from n [] = []
with_bytes from n ((key, ai) ∷ rest) =
    let more = with_bytes from n rest in
    if addr_beq key from
    then (key, record ai { rx_bytes = (ai.rx_bytes + n) % 2 ^ 64 }) ∷ rest
    else (key, ai) ∷ more

abbrev pub with_session_bytes : Addr → ℕ → Option ClientSession → Option ClientSession
with_session_bytes from n none = none
with_session_bytes from n (some session) = some (record session {
  rx_bytes = (session.rx_bytes + n) % 2 ^ 64;
  addrs = with_bytes from n session.addrs;
})

-- The bytes are added to the server's total, to the client's session and to the sender's address there.
pub record IsCounted (s t : Server) (id : ℕ) (from : Addr) (n : ℕ) : Type 0 where
  pub total : t.total_rx ≡ (s.total_rx + n) % 2 ^ 64
  pub own : lookup id t.sessions ≡ with_session_bytes from n (lookup id s.sessions)
  pub others : (other : ℕ) → other ≢ id → lookup other t.sessions ≡ lookup other s.sessions

with_bytes-absent :
    (from : Addr) (n : ℕ) (addrs : Map Addr AddrInfo)
    → lookup from addrs ≡ none
    → with_bytes from n addrs ≡ addrs
unfolding lookup
with_bytes-absent from n [] absent = refl
with_bytes-absent from n ((k, ai) ∷ rest) absent =
    ground (arith, absent, with_bytes-absent from n rest)

with_bytes-insert :
    (from : Addr) (n : ℕ) (addrs : Map Addr AddrInfo) (ai : AddrInfo)
    → lookup from addrs ≡ some ai
    → insert from (record ai { rx_bytes = (ai.rx_bytes + n) % 2 ^ 64 }) addrs
      ≡ with_bytes from n addrs
unfolding lookup insert
with_bytes-insert from n [] ai found = absurd cc
with_bytes-insert from n ((k, old) ∷ rest) ai found =
    ground (arith, found, addr_beq_iff k from, with_bytes-insert from n rest ai)

with_bytes_lem :
    (from : Addr) (n : ℕ) (addrs : Map Addr AddrInfo)
    → update_addr from (λ ai. record ai { rx_bytes = (ai.rx_bytes + n) % 2 ^ 64 }) addrs
      ≡ with_bytes from n addrs
with_bytes_lem from n addrs = elim (Option-cases (lookup from addrs)) [
  | inl absent ↦ rw (absent, update_addr) (rw (with_bytes-absent from n addrs absent) refl)
  | inr (ai, found) ↦ rw (found, update_addr) (with_bytes-insert from n addrs ai found)
]

pub count_rx-IsCounted :
    (s : Server) (id : ℕ) (from : Addr) (n : ℕ) → IsCounted s (count_rx s id from n) id from n
unfolding count_rx
count_rx-IsCounted s id from n = elim (Option-cases (lookup id s.sessions)) [
  | inl none' ↦
      rw (none', count_rx)
        (record {
          total = refl;
          own = none' ∙ sym (ap (with_session_bytes from n) none');
          others = λ other differs. refl;
        })
  | inr (session, known) ↦
      rw (known, count_rx)
        (record {
          total = refl;
          own =
              lookup-insert id id _ s.sessions
              ∙ rw (==_refl id) (rw known (rw (with_bytes_lem from n session.addrs) refl));
          others = λ other differs.
              let miss : (id == other) ≡ false = ground (arith, differs) in
              lookup-insert id other _ s.sessions ∙ rw miss refl;
        })
]

-- Nothing else changes.
pub count_rx_rest :
    (s : Server) (id : ℕ) (from : Addr) (n : ℕ)
    → let t = count_rx s id from n in t ≡ record s { sessions = t.sessions; total_rx = t.total_rx }
unfolding count_rx
count_rx_rest s id from n = elim (Option-cases (lookup id s.sessions)) [
  | inl none' ↦ rw (none', count_rx) refl
  | inr (session, known) ↦ rw (known, count_rx) refl
]

pub dispatch-handle_data :
    (write_ok : Addr → Bool) (now : ℕ) (s : Server) (hdr : Header) (packet : List ℕ) (from : Addr)
    → hdr.type ≡ type_data
    → dispatch write_ok now s hdr packet from
      ≡ handle_data write_ok now s hdr (drop header_size packet) from packet
unfolding dispatch
dispatch-handle_data write_ok now s hdr packet from e =
    let data' : (hdr.type == type_data) ≡ true = ground (arith, e) in
    let other : (hdr.type == type_heartbeat) ≡ false = ground (arith, e) in
    rw (other, data', dispatch) refl

pub dispatch-handle_heartbeat :
    (write_ok : Addr → Bool) (now : ℕ) (s : Server) (hdr : Header) (packet : List ℕ) (from : Addr)
    → hdr.type ≡ type_heartbeat
    → dispatch write_ok now s hdr packet from
      ≡ handle_heartbeat now s hdr (drop header_size packet) from
unfolding dispatch
dispatch-handle_heartbeat write_ok now s hdr packet from e =
    let beat : (hdr.type == type_heartbeat) ≡ true = ground (arith, e) in rw (beat, dispatch) refl
