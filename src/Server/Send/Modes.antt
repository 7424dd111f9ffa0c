-- ===== src/Server/Send/Modes.antt =====
-- sendToClient of internal/server/server.go: the datagrams that each mode sends, and what it counts.
use mpfpv.Prelude.{
  zero, suc, ap, ℕ, ◌+◌, ◌*◌, ◌%◌, ◌^◌, ◌≡◌, refl, ◌∙◌, arith, List, [], ◌∷◌, ◌++◌, Bool, Option,
  none, some, ◌==◌, if◌then◌else◌, nat_eq, Bool-cases, inl, inr, length,
}
use mathlib.Core.List.{append-nil}
use mpfpv.Prelude.Map.{lookup}
use mpfpv.Prelude.Words.{u64}
use mpfpv.Protocol.Packet.{send_mode_failover}
use mpfpv.Server.State.{Addr, AddrInfo, ClientSession, Server, Effect, udp, Step}
use mpfpv.Server.Send.{
  reply_copy, send_to, send_to_all, send_failover, send_session, send_to_client, count_tx,
}

-- The addresses that a packet for the client goes to: all of them, or in failover mode the one that
-- last sent data, or else the first.
abbrev addrs_of : List (Addr × AddrInfo) → List Addr
addrs_of [] = []
addrs_of ((key, ai) ∷ rest) = ai.addr ∷ addrs_of rest

abbrev failover_of : Option Addr → List (Addr × AddrInfo) → List Addr
failover_of last [] = []
failover_of (some dst) (a ∷ rest) = dst ∷ []
failover_of none ((key, ai) ∷ rest) = ai.addr ∷ []

abbrev pub destinations : ClientSession → List Addr
destinations session =
    if session.send_mode == send_mode_failover
    then failover_of session.last_data_addr session.addrs
    else addrs_of session.addrs

mod_step :
    (a b first rest n : ℕ)
    → b % 2 ^ 64 ≡ (a + (first + 0) * n) % 2 ^ 64
    → (b + rest * n) % 2 ^ 64 ≡ (a + (first + rest) * n) % 2 ^ 64
mod_step a b first rest n h = grind arith

module _ (write_ok : Addr → Bool) where
  -- Where the copy of a datagram to an address goes: to the reply port of the same host, unless the
  -- client has none, or it is the port that the datagram itself went to.
  abbrev copies_of : ℕ → List ℕ → Addr → List Effect
  copies_of zero packet dst = []
  copies_of (suc p) packet dst =
      if dst.port == suc p then [] else udp (record { host = dst.host; port = suc p }) packet ∷ []

  copies_of-reply_copy :
      (r : ℕ) (packet : List ℕ) (dst : Addr) → reply_copy r dst packet ≡ copies_of r packet dst
  copies_of-reply_copy zero packet dst = refl
  copies_of-reply_copy (suc p) packet dst = ground arith

  -- To each a datagram, and if that succeeds a copy to the reply port.
  unfoldable pub datagrams : ℕ → List ℕ → List Addr → List Effect
  datagrams reply_port packet [] = []
  datagrams reply_port packet (dst ∷ rest) =
      udp dst packet ∷ (if write_ok dst then copies_of reply_port packet dst else [])
      ++ datagrams reply_port packet rest

  -- How many of the writes succeed.
  unfoldable pub successes : List Addr → ℕ
  successes [] = 0
  successes (dst ∷ rest) = (if write_ok dst then 1 else 0) + successes rest

  -- The datagrams of a list of destinations, and the bytes that they add to the count.
  abbrev Sends : Server → ℕ → ℕ → List ℕ → List Addr → Step → Type 0
  Sends s c reply_port packet dsts (t, es) =
      (es ≡ datagrams reply_port packet dsts)
      × (t.total_tx % 2 ^ 64 ≡ (s.total_tx + successes dsts * length packet) % 2 ^ 64)

  total_tx-count_tx : (s : Server) (c n : ℕ) → (count_tx s c n).total_tx ≡ u64 (s.total_tx + n)
  total_tx-count_tx s c n = ground arith

  send_to-Sends :
      (s : Server) (c r : ℕ) (packet : List ℕ) (dst : Addr)
      → Sends s c r packet (dst ∷ []) (send_to write_ok s c r packet dst)
  unfolding send_to datagrams successes
  send_to-Sends s c r packet dst = elim (Bool-cases (write_ok dst)) [
    | inl good ↦
        rw (good, send_to)
          (rw (append-nil (copies_of r packet dst), total_tx-count_tx s c (length packet))
            (ap (λ es. udp dst packet ∷ es) (copies_of-reply_copy r packet dst), omega arith))
    | inr bad ↦ rw (bad, send_to) (refl, omega arith)
  ]

  send_to_all-Sends :
      (addrs : List (Addr × AddrInfo)) (s : Server) (c r : ℕ) (packet : List ℕ)
      → Sends s c r packet (addrs_of addrs) (send_to_all write_ok s c r packet addrs)
  unfolding send_to_all datagrams successes
  send_to_all-Sends [] s c r packet = (refl, ground arith)
  send_to_all-Sends ((key, ai) ∷ rest) s c r packet =
      let one = send_to-Sends s c r packet ai.addr in
      let more = send_to_all-Sends rest (send_to write_ok s c r packet ai.addr).0 c r packet in
      (
        rw (one.0, more.0, append-nil (if write_ok ai.addr then copies_of r packet ai.addr else []))
            refl,
        more.1
            ∙ mod_step s.total_tx (send_to write_ok s c r packet ai.addr).0.total_tx
                (if write_ok ai.addr then 1 else 0) (successes (addrs_of rest)) (length packet)
                one.1,
      )

  send_failover-Sends :
      (a : Addr × AddrInfo) (addrs : List (Addr × AddrInfo)) (last : Option Addr) (s : Server)
      (c r : ℕ) (packet : List ℕ)
      → Sends s c r packet
          (failover_of last (a ∷ addrs))
          (send_failover write_ok s c r packet last (a ∷ addrs))
  unfolding send_failover
  send_failover-Sends a addrs (some dst) s c r packet = send_to-Sends s c r packet dst
  send_failover-Sends (key, ai) addrs none s c r packet = send_to-Sends s c r packet ai.addr

  send_session-Sends :
      (s : Server) (c : ℕ) (packet : List ℕ) (session : ClientSession)
      (addrs : List (Addr × AddrInfo))
      → Sends s c session.reply_port packet
          (destinations (record session { addrs = addrs }))
          (send_session write_ok s c packet session addrs)
  unfolding send_session datagrams successes
  send_session-Sends s c packet session [] = ground arith
  send_session-Sends s c packet session (a ∷ addrs) =
      elim (Bool-cases (session.send_mode == send_mode_failover)) [
        | inl failover ↦
            rw (failover, send_session)
              (send_failover-Sends a addrs session.last_data_addr s c session.reply_port packet)
        | inr redundant ↦
            rw (redundant, send_session)
              (send_to_all-Sends (a ∷ addrs) s c session.reply_port packet)
      ]

  -- A packet for a client that has a session goes to all its addresses, or in failover mode to the
  -- one that last sent data or else the first, each followed by a copy to the reply port if the
  -- write succeeds and the port is another, and the total of bytes sent grows by the packet's
  -- length for each write that succeeds, in 64 bits.
  pub send_to_client-destinations :
      (s : Server) (c : ℕ) (packet : List ℕ) (session : ClientSession)
      → lookup c s.sessions ≡ some session
      → ((send_to_client write_ok s c packet).1
          ≡ datagrams session.reply_port packet (destinations session))
        × ((send_to_client write_ok s c packet).0.total_tx % 2 ^ 64
            ≡ (s.total_tx + successes (destinations session) * length packet) % 2 ^ 64)
  unfolding send_to_client
  send_to_client-destinations s c packet session e =
      rw (e, send_to_client) (send_session-Sends s c packet session session.addrs)
