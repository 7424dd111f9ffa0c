-- ===== src/Server/Data/Copies.antt =====
-- Redundant copies of a data packet: the client sends one over every path, and one goes on.
use mpfpv.Prelude.{
  ℕ, ◌≡◌, ◌<◌, ◌^◌, length, drop, ap, refl, sym, ◌∙◌, arith, List, [], ◌∷◌, Bool, true, some, none,
  Bool-cases, Option-cases, inl, inr, nat_eq, ◌==◌, Option,
}
use mpfpv.Prelude.Int.{ℤ}
use mpfpv.Prelude.Map.{lookup, insert}
use mpfpv.Prelude.Outcome.{returns, ok}
use mpfpv.Prelude.Slices.{index}
use mpfpv.Protocol.Packet.{Header, decode_header, header_size, type_data}
use mpfpv.Protocol.Dedup.{new_deduplicator, is_duplicate}
use mpfpv.Protocol.Dedup.Refine.Relation.{IsWindowSize}
use mpfpv.Protocol.Dedup.Clients.{Call, run, AreWords, run-packet}
use mpfpv.Protocol.Dedup.Clients.Verdicts.{redelivery-dropped}
use mpfpv.Server.State.{Addr, AddrInfo, Server, ClientSession, Effect}
use mpfpv.Server.Send.{send_to, send_to_all, send_failover, send_session, send_to_client}
use mpfpv.Server.Data.Counting.{IsCounted, count_rx-IsCounted, count_rx_rest, dispatch-handle_data}
use mpfpv.Server.Data.Panics.{dedup-count_rx, handle_packet-dispatch}
use mpfpv.Server.Data.Spoofing.{handle_data-forward}
use mpfpv.Server.Data.{
  is_bad_inner, inner_src, seen_data, handle_data, forward_data, deliver, inner_dst, handle_packet,
  count_rx,
}

module _ (write_ok : Addr → Bool) where
  dedup-send_to :
      (s : Server) (c r : ℕ) (bytes : List ℕ) (dst : Addr)
      → (send_to write_ok s c r bytes dst).0.dedup ≡ s.dedup
  unfolding send_to
  dedup-send_to s c r bytes dst = ground arith

  dedup-send_to_all :
      (addrs : List (Addr × AddrInfo)) (s : Server) (c r : ℕ) (bytes : List ℕ)
      → (send_to_all write_ok s c r bytes addrs).0.dedup ≡ s.dedup
  unfolding send_to_all
  dedup-send_to_all [] s c r bytes = refl
  dedup-send_to_all ((k, ai) ∷ rest) s c r bytes =
      dedup-send_to_all rest _ c r bytes ∙ dedup-send_to s c r bytes ai.addr

  dedup-send_failover :
      (s : Server) (c r : ℕ) (bytes : List ℕ) (o : Option Addr) (addrs : List (Addr × AddrInfo))
      → (send_failover write_ok s c r bytes o addrs).0.dedup ≡ s.dedup
  unfolding send_failover
  dedup-send_failover s c r bytes (some dst) addrs = dedup-send_to s c r bytes dst
  dedup-send_failover s c r bytes none [] = refl
  dedup-send_failover s c r bytes none ((k, ai) ∷ rest) = dedup-send_to s c r bytes ai.addr

  dedup-send_session :
      (s : Server) (c : ℕ) (bytes : List ℕ) (session : ClientSession)
      (addrs : List (Addr × AddrInfo))
      → (send_session write_ok s c bytes session addrs).0.dedup ≡ s.dedup
  unfolding send_session
  dedup-send_session s c bytes session [] = refl
  dedup-send_session s c bytes session (a ∷ addrs) = ground (
    arith,
    dedup-send_to_all (a ∷ addrs) s c session.reply_port bytes,
    dedup-send_failover s c session.reply_port bytes session.last_data_addr (a ∷ addrs),
  )

  dedup-send_to_client :
      (s : Server) (c : ℕ) (bytes : List ℕ) → (send_to_client write_ok s c bytes).0.dedup ≡ s.dedup
  unfolding send_to_client
  dedup-send_to_client s c bytes = elim (Option-cases (lookup c s.sessions)) [
    | inl e ↦ rw (e, send_to_client) refl
    | inr (session, e) ↦ rw (e, send_to_client) (dedup-send_session s c bytes session session.addrs)
  ]

  dedup-deliver :
      (s : Server) (payload bytes : List ℕ) → (deliver write_ok s payload bytes).0.dedup ≡ s.dedup
  unfolding deliver
  dedup-deliver s payload bytes = elim (Bool-cases (inner_dst payload == s.server_virtual_ip)) [
    | inl own ↦ rw (own, deliver) refl
    | inr other ↦ elim (Option-cases (lookup (inner_dst payload) s.route_table)) [
      | inl e ↦ rw (other, deliver) (rw e refl)
      | inr (c, e) ↦ rw (other, deliver) (rw e (dedup-send_to_client s c bytes))
    ]
  ]

  dedup-forward_data :
      (now : ℕ) (s : Server) (c : ℕ) (payload : List ℕ) (from : Addr) (bytes : List ℕ)
      (session : ClientSession) (t : Server) (es : List Effect)
      → forward_data write_ok now s c payload from bytes session ≡ returns (t, es)
      → t.dedup ≡ s.dedup
  unfolding forward_data index
  dedup-forward_data now s c payload from bytes session t es h =
      elim (Bool-cases (is_bad_inner payload)) [
        | inl bad ↦ bad_same payload bad h
        | inr good ↦ elim (Bool-cases (inner_src payload == session.virtual_ip)) [
          | inl same ↦ ground (
            arith,
            h,
            dedup-deliver (record s { sessions = insert c (seen_data now from session) s.sessions })
                payload bytes,
          )
          | inr differs ↦ ground (arith, h)
        ]
      ]
    where
      bad_same :
          (p : List ℕ)
          → is_bad_inner p ≡ true
          → forward_data write_ok now s c p from bytes session ≡ returns (t, es)
          → t.dedup ≡ s.dedup
      bad_same [] bad h' = absurd cc
      bad_same (b ∷ bs) bad h' = ground (arith, h')

  dedup-handle_data :
      (now : ℕ) (s : Server) (hdr : Header) (payload : List ℕ) (from : Addr) (bytes : List ℕ)
      (t : Server) (es : List Effect)
      → handle_data write_ok now s hdr payload from bytes ≡ returns (t, es)
      → t.dedup ≡ (is_duplicate s.dedup hdr.client_id hdr.seq).1
  unfolding handle_data
  dedup-handle_data now s hdr payload from bytes t es h =
      elim (Bool-cases (is_duplicate s.dedup hdr.client_id hdr.seq).0) [
        | inl dup ↦ ground (arith, h)
        | inr fresh ↦ elim (Option-cases (lookup hdr.client_id s.sessions)) [
          | inl none' ↦ ground (arith, h)
          | inr (session, e') ↦
              dedup-forward_data now
                (record s { dedup = (is_duplicate s.dedup hdr.client_id hdr.seq).1 }) hdr.client_id
                payload from bytes session t es
                (sym (handle_data-forward write_ok now s hdr payload from bytes session fresh e')
                  ∙ h)
        ]
      ]

  -- A packet that was handled is a duplicate from then on.
  handle_data-again :
      (z : ℤ) (calls : List Call) (s t : Server) (hdr : Header) (es : List Effect) (now : ℕ)
      (payload bytes : List ℕ) (from : Addr)
      → IsWindowSize (new_deduplicator z).window_size
      → AreWords calls
      → hdr.seq < 2 ^ 32
      → s.dedup ≡ run (new_deduplicator z) calls
      → handle_data write_ok now s hdr payload from bytes ≡ returns (t, es)
      → (is_duplicate t.dedup hdr.client_id hdr.seq).0 ≡ true
  handle_data-again z calls s t hdr es now payload bytes from size words seq reached h =
      let dup = redelivery-dropped z size calls [] hdr.client_id hdr.seq words seq tt in
      rw (dedup-handle_data now s hdr payload from bytes t es h, reached)
        (rw (sym (run-packet (new_deduplicator z) calls hdr.client_id hdr.seq)) dup)

  -- After the server has handled a data packet, a copy of it that comes from another address at
  -- another time has no effect outside: its bytes are counted, in the total, for the session and
  -- for the address, and the deduplicator hears of it; nothing else in the server changes. The
  -- deduplicator is one that calls have led to from a new one whose window size divides 2 ^ 32 and
  -- is at most 2 ^ 31.
  pub handle_packet_copy :
      (z : ℤ) (calls : List Call) (s t : Server) (hdr : Header) (es : List Effect) (now now' : ℕ)
      (packet : List ℕ) (from from' : Addr)
      → IsWindowSize (new_deduplicator z).window_size
      → AreWords calls
      → hdr.seq < 2 ^ 32
      → s.dedup ≡ run (new_deduplicator z) calls
      → decode_header packet ≡ ok hdr
      → hdr.type ≡ type_data
      → handle_packet write_ok now s packet from ≡ returns (t, es)
      → (u : Server) × (handle_packet write_ok now' t packet from' ≡ returns (u, []))
        × IsCounted t u hdr.client_id from' (length packet)
        × (u ≡ record t {
          sessions = u.sessions;
          total_rx = u.total_rx;
          dedup = (is_duplicate t.dedup hdr.client_id hdr.seq).1;
        })
  unfolding handle_data
  handle_packet_copy z calls s t hdr es now now' packet from from' size words seq reached decoded
        is_data h =
      let n = length packet in
      let before : Server = count_rx s hdr.client_id from n in
      let after : Server = count_rx t hdr.client_id from' n in
      let payload = drop header_size packet in
      let again =
        handle_data-again z calls before t hdr es now payload packet from size words seq
          (dedup-count_rx s hdr.client_id from n ∙ reached)
          (sym (
              handle_packet-dispatch write_ok now s packet from hdr decoded
              ∙ dispatch-handle_data write_ok now before hdr packet from is_data)
            ∙ h) in
      let dup : (is_duplicate after.dedup hdr.client_id hdr.seq).0 ≡ true =
        rw (dedup-count_rx t hdr.client_id from' n) again in
      let counted = count_rx-IsCounted t hdr.client_id from' n in
      let u : Server = record after {
        dedup = (is_duplicate after.dedup hdr.client_id hdr.seq).1;
      } in
      (
        u,
        handle_packet-dispatch write_ok now' t packet from' hdr decoded
            ∙ dispatch-handle_data write_ok now' after hdr packet from' is_data
            ∙ rw (dup, handle_data) refl,
        record { total = counted.total; own = counted.own; others = counted.others },
        ap (λ (x : Server). record x { dedup = (is_duplicate after.dedup hdr.client_id hdr.seq).1 })
              (count_rx_rest t hdr.client_id from' n)
            ∙ rw (dedup-count_rx t hdr.client_id from' n) refl,
      )
