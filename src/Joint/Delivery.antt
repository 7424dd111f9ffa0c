-- ===== src/Joint/Delivery.antt =====
-- A packet of the client's TUN device on its way through the server: tunReadLoop of
-- internal/client/client.go against handlePacket of internal/server/server.go.
use mpfpv.Prelude.{
  Option-cases, inl, inr, ℕ, ◌+◌, ◌^◌, ◌<◌, ◌≡◌, ◌≢◌, refl, sym, ap, subst, ◌∙◌, arith, List, [],
  ◌∷◌, ◌++◌, Bool, true, false, none, some, ◌==◌, length, replicate, ==_refl, nat_eq,
}
use mpfpv.Prelude.Map.{lookup, insert, lookup-insert}
use mpfpv.Prelude.Words.{u64}
use mpfpv.Prelude.Outcome.{returns}
use mpfpv.Protocol.Dedup.{is_duplicate}
use mpfpv.Protocol.Packet.{encode_header, be32, header_size, type_data}
use mpfpv.Server.State.{Addr, addr_eq, ClientSession, Server}
use mpfpv.Server.Data.{
  handle_packet, dispatch, handle_data, forward_data, deliver, count_rx, update_addr, seen_data,
  inner_src, is_bad_inner,
}
use mpfpv.Server.Data.Panics.{handle_packet-dispatch, dedup-count_rx}
use mpfpv.Server.Data.Spoofing.{handle_data-forward}
use mpfpv.Client.State.{Client, conn_udp}
use mpfpv.Client.Sending.{
  tun_read, rewrite_source, to_server, to_server_over, header_of, next_seq, is_dropped,
}
use mpfpv.Joint.Headers.{IsNumbered, header_of-IsHeader, decode_header-take}
use mpfpv.Joint.Rewriting.{IsIpv4, IsRewritten, rewrite_source-IsRewritten}

-- The session keeps its address while the server counts the bytes that it received.
known-counted :
    (s : Server) (id : ℕ) (from : Addr) (n : ℕ) (session : ClientSession)
    → lookup id s.sessions ≡ some session
    → (session' : ClientSession) × (lookup id (count_rx s id from n).sessions ≡ some session')
      × (session'.virtual_ip ≡ session.virtual_ip)
unfolding count_rx
known-counted s id from n session known =
    let session' : ClientSession = record session {
      rx_bytes = u64 (session.rx_bytes + n);
      addrs = update_addr from (λ ai. record ai { rx_bytes = u64 (ai.rx_bytes + n) }) session.addrs;
    } in
    (
      session',
      rw (known, count_rx) (lookup-insert id id session' s.sessions ∙ rw (==_refl id) refl),
      refl,
    )

keeps-count_rx :
    (s : Server) (id : ℕ) (from : Addr) (n : ℕ)
    → ((count_rx s id from n).route_table ≡ s.route_table)
      × ((count_rx s id from n).server_virtual_ip ≡ s.server_virtual_ip)
      × ((count_rx s id from n).tun_available ≡ s.tun_available)
unfolding count_rx
keeps-count_rx s id from n = ground arith

other-counted :
    (s : Server) (id other : ℕ) (from : Addr) (n : ℕ)
    → other ≢ id
    → lookup other (count_rx s id from n).sessions ≡ lookup other s.sessions
unfolding count_rx
other-counted s id other from n differs = elim (Option-cases (lookup id s.sessions)) [
  | inl none' ↦ rw (none', count_rx) refl
  | inr (session, e) ↦
      let miss : (id == other) ≡ false = ground (arith, differs) in
      rw (e, count_rx) (lookup-insert id other _ s.sessions ∙ rw miss refl)
]

-- A server with the routes and the TUN device of another.
pub record RoutesAs (t s : Server) : Type 0 where
  pub route_table : t.route_table ≡ s.route_table
  pub server_virtual_ip : t.server_virtual_ip ≡ s.server_virtual_ip
  pub tun_available : t.tun_available ≡ s.tun_available

module _ (write_ok : Addr → Bool) (now : ℕ) (c : Client) (s : Server) (from : Addr)
    (numbered : IsNumbered c) where
  -- The datagram of the client with a payload.
  abbrev pub datagram_of : List ℕ → List ℕ
  datagram_of payload = encode_header (replicate header_size 0) (header_of c type_data) ++ payload

  handle_packet-datagram_of :
      (payload : List ℕ)
      → handle_packet write_ok now s (datagram_of payload) from
        ≡ handle_data write_ok now
            (count_rx s c.client_id from (length (datagram_of payload)))
            (header_of c type_data)
            payload
            from
            (datagram_of payload)
  unfolding dispatch encode_header
  handle_packet-datagram_of payload =
      handle_packet-dispatch write_ok now s (datagram_of payload) from (header_of c type_data) (
        decode_header-take (replicate header_size 0) payload (header_of c type_data) (omega arith)
          (header_of-IsHeader c type_data numbered (omega arith)))

  pub delivered :
      (payload : List ℕ) (session : ClientSession)
      → lookup c.client_id s.sessions ≡ some session
      → (is_duplicate s.dedup c.client_id c.seq).0 ≡ false
      → is_bad_inner payload ≡ false
      → inner_src payload ≡ session.virtual_ip
      → (t : Server) × (handle_packet write_ok now s (datagram_of payload) from
          ≡ returns (deliver write_ok t payload (datagram_of payload)))
        × RoutesAs t s
        × ((other : ℕ) → other ≢ c.client_id → lookup other t.sessions ≡ lookup other s.sessions)
  unfolding forward_data
  delivered payload session known fresh good source =
      let n = length (datagram_of payload) in
      let s1 : Server = count_rx s c.client_id from n in
      let (session', known', same) = known-counted s c.client_id from n session known in
      let fresh' : (is_duplicate s1.dedup c.client_id c.seq).0 ≡ false =
        rw (dedup-count_rx s c.client_id from n) fresh in
      let s2 : Server = record s1 { dedup = (is_duplicate s1.dedup c.client_id c.seq).1 } in
      let t : Server = record s2 {
        sessions = insert c.client_id (seen_data now from session') s2.sessions;
      } in
      let (routes, own, tun) = keeps-count_rx s c.client_id from n in
      let source' : (inner_src payload == session'.virtual_ip) ≡ true =
        ground (arith, source, same) in
      (
        t,
        handle_packet-datagram_of payload
            ∙ handle_data-forward write_ok now s1 (header_of c type_data) payload from
                (datagram_of payload) session' fresh' known'
            ∙ rw (good, source', forward_data) refl,
        record { route_table = routes; server_virtual_ip = own; tun_available = tun },
        λ other differs.
            let miss : (c.client_id == other) ≡ false = ground (arith, differs) in
            lookup-insert c.client_id other (seen_data now from session') s2.sessions
            ∙ rw miss (other-counted s c.client_id other from n differs),
      )

pub tun_read-single :
    (paths_ok : List ℕ → Bool) (conn_ok : Bool) (c : Client) (packet payload : List ℕ)
    → c.multipath ≡ none
    → is_dropped packet ≡ false
    → rewrite_source c packet ≡ returns payload
    → tun_read paths_ok conn_ok c packet
      ≡ returns (
        next_seq c,
        conn_udp (encode_header (replicate header_size 0) (header_of c type_data) ++ payload) ∷ [],
      )
unfolding tun_read to_server
tun_read-single paths_ok conn_ok c packet payload single kept run =
    let bytes = encode_header (replicate header_size 0) (header_of c type_data) ++ payload in
    let over : (to_server_over paths_ok conn_ok (next_seq c) bytes c.multipath).0
        ≡ (next_seq c, conn_udp bytes ∷ []) =
      subst
        (λ o.
          (to_server_over paths_ok conn_ok (next_seq c) bytes o).0
          ≡ (next_seq c, conn_udp bytes ∷ []))
        (sym single) refl in
    rw kept (rw run (ap returns over))

-- A whole IPv4 packet from the TUN device of a client in single-socket mode, whatever its source
-- address, becomes one datagram with the client's own address as the source and a checksum that
-- verifies, all behind the source as it was. The server, which has a session with this address for
-- the client and has not seen the sequence number, accepts it: it goes where its destination
-- leads, to the server's TUN device or over the routes. The client's numbers fit the header, its
-- ID is not 0, and its address is not 0.0.0.0.
pub tun_read-delivered :
    (write_ok : Addr → Bool) (paths_ok : List ℕ → Bool) (conn_ok : Bool) (now : ℕ) (c : Client)
    (s : Server) (from : Addr) (session : ClientSession) (packet : List ℕ)
    → IsNumbered c
    → c.multipath ≡ none
    → lookup c.client_id s.sessions ≡ some session
    → (is_duplicate s.dedup c.client_id c.seq).0 ≡ false
    → c.virtual_ip ≡ be32 session.virtual_ip
    → session.virtual_ip < 2 ^ 32
    → session.virtual_ip ≢ 0
    → IsIpv4 packet
    → (bytes : List ℕ) × (payload : List ℕ) × (t : Server) × (tun_read paths_ok conn_ok c packet
        ≡ returns (next_seq c, conn_udp bytes ∷ []))
      × IsRewritten session.virtual_ip packet payload
      × (handle_packet write_ok now s bytes from ≡ returns (deliver write_ok t payload bytes))
      × RoutesAs t s
tun_read-delivered write_ok paths_ok conn_ok now c s from session packet numbered single known fresh
      assigned small nonzero valid =
    let (payload, run, r) =
      rewrite_source-IsRewritten c session.virtual_ip assigned small nonzero packet valid in
    let kept : is_dropped packet ≡ false =
      ground (arith, valid.version, valid.long, valid.inside) in
    let good : is_bad_inner payload ≡ false =
      ground (arith, valid.version, valid.long, valid.inside, r.first, r.length') in
    let (t, handled, routes, _) =
      delivered write_ok now c s from numbered payload session known fresh good r.source in
    (
      _,
      payload,
      t,
      tun_read-single paths_ok conn_ok c packet payload single kept run,
      r,
      handled,
      routes,
    )
