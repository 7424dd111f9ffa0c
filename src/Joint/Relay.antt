-- ===== src/Joint/Relay.antt =====
-- A packet from the TUN device of one client to that of another: tunReadLoop and handleData of
-- internal/client/client.go with handlePacket of internal/server/server.go between them.
use mpfpv.Prelude.{
  ℕ, ◌≡◌, ◌≢◌, ◌^◌, ◌<◌, sym, ap, ◌∙◌, arith, List, [], ◌∷◌, ◌++◌, Bool, true, false, none, some,
  ◌==◌, length, replicate, ltb, if◌then◌else◌, nat_eq,
}
use mpfpv.Prelude.Map.{lookup}
use mpfpv.Prelude.Outcome.{returns, ok}
use mpfpv.Protocol.Dedup.{is_duplicate}
use mpfpv.Protocol.Packet.{be32, uint32_at, encode_header, decode_header, header_size, type_data}
use mpfpv.Server.State.{Addr, ClientSession, Server}
use mpfpv.Server.Send.Modes.{datagrams, destinations, send_to_client-destinations}
use mpfpv.Server.Data.{handle_packet, deliver, inner_dst, is_bad_inner}
use mpfpv.Server.Data.Panics.{decoded_long}
use mpfpv.Client.State.{Client, ClientEffect, conn_udp, tun_write}
use mpfpv.Client.Sending.{tun_read, next_seq, header_of, is_dropped}
use mpfpv.Client.Receiving.{receive, receive_with, dispatch, handle_data}
use mpfpv.Joint.Headers.{IsNumbered, header_of-IsHeader, decode_header-take}
use mpfpv.Joint.Rewriting.{IsIpv4, IsRewritten, rewrite_source-IsRewritten, uint32_at-drop}
use mpfpv.Joint.Delivery.{delivered, tun_read-single}

-- Data for a client that knows no such packet goes to its TUN device, as it is.
receive-datagram_of :
    (tun_ok : List ℕ → ℕ → Bool) (now : ℕ) (c d : Client) (payload : List ℕ)
    → IsNumbered c
    → d.tun_dev ≡ true
    → (is_duplicate d.dedup c.client_id c.seq).0 ≡ false
    → receive tun_ok now d
        (encode_header (replicate header_size 0) (header_of c type_data) ++ payload)
      ≡ returns
          (record d { dedup = (is_duplicate d.dedup c.client_id c.seq).1 }, tun_write payload ∷ [])
unfolding receive receive_with dispatch handle_data encode_header
receive-datagram_of tun_ok now c d payload numbered device fresh =
    let bytes = encode_header (replicate header_size 0) (header_of c type_data) ++ payload in
    let decoded : decode_header bytes ≡ ok (header_of c type_data) =
      decode_header-take (replicate header_size 0) payload (header_of c type_data) (omega arith)
        (header_of-IsHeader c type_data numbered (omega arith)) in
    let long : ltb (length bytes) header_size ≡ false =
      ground (arith, decoded_long bytes (header_of c type_data) decoded) in
    let written : (if d.tun_dev then tun_write payload ∷ [] else []) ≡ tun_write payload ∷ [] =
      ap (λ (b : Bool). if b then tun_write payload ∷ [] else []) device in
    rw long (
      rw decoded (
        rw fresh (
          ap
            (λ (es : List ClientEffect).
              returns (record d { dedup = (is_duplicate d.dedup c.client_id c.seq).1 }, es))
            written)))

module _ (write_ok : Addr → Bool) where
  deliver-route :
      (t : Server) (payload bytes : List ℕ) (id : ℕ) (target : ClientSession)
      → inner_dst payload ≢ t.server_virtual_ip
      → lookup (inner_dst payload) t.route_table ≡ some id
      → lookup id t.sessions ≡ some target
      → (deliver write_ok t payload bytes).1
        ≡ datagrams write_ok target.reply_port bytes (destinations target)
  unfolding deliver
  deliver-route t payload bytes id target elsewhere route known =
      let miss : (inner_dst payload == t.server_virtual_ip) ≡ false = ground (arith, elsewhere) in
      rw (miss, deliver)
        (rw route ((send_to_client-destinations write_ok t id bytes target known).0))

-- A whole IPv4 packet that one client's TUN device hands over, for an address that the server's
-- routes lead from to another client with a session, is sent to that client's addresses, as its
-- session's mode says; and a client with a TUN device that has not seen the packet writes it
-- there, with the sender's address as the source and a checksum that verifies. The sender is in
-- single-socket mode, its numbers fit the header, and the server has a session with its address,
-- not 0.0.0.0, and has not seen the sequence number; the destination is not the server's own.
pub tun_read-relayed :
    (write_ok : Addr → Bool) (paths_ok : List ℕ → Bool) (conn_ok : Bool)
    (tun_ok : List ℕ → ℕ → Bool) (now later : ℕ) (c d : Client) (s : Server) (from : Addr)
    (session target : ClientSession) (id : ℕ) (packet : List ℕ)
    → IsNumbered c
    → c.multipath ≡ none
    → lookup c.client_id s.sessions ≡ some session
    → (is_duplicate s.dedup c.client_id c.seq).0 ≡ false
    → c.virtual_ip ≡ be32 session.virtual_ip
    → session.virtual_ip < 2 ^ 32
    → session.virtual_ip ≢ 0
    → IsIpv4 packet
    → inner_dst packet ≢ s.server_virtual_ip
    → lookup (inner_dst packet) s.route_table ≡ some id
    → id ≢ c.client_id
    → lookup id s.sessions ≡ some target
    → d.tun_dev ≡ true
    → (is_duplicate d.dedup c.client_id c.seq).0 ≡ false
    → (bytes : List ℕ) × (payload : List ℕ) × (t : Server) × (tun_read paths_ok conn_ok c packet
        ≡ returns (next_seq c, conn_udp bytes ∷ []))
      × (handle_packet write_ok now s bytes from
          ≡ returns (t, datagrams write_ok target.reply_port bytes (destinations target)))
      × (receive tun_ok later d bytes
          ≡ returns (
            record d { dedup = (is_duplicate d.dedup c.client_id c.seq).1 },
            tun_write payload ∷ [],
          ))
      × IsRewritten session.virtual_ip packet payload
tun_read-relayed write_ok paths_ok conn_ok tun_ok now later c d s from session target id packet
      numbered single known fresh assigned small nonzero valid elsewhere route other known_target
      device unseen =
    let (payload, run, r) =
      rewrite_source-IsRewritten c session.virtual_ip assigned small nonzero packet valid in
    let kept : is_dropped packet ≡ false =
      ground (arith, valid.version, valid.long, valid.inside) in
    let good : is_bad_inner payload ≡ false =
      ground (arith, valid.version, valid.long, valid.inside, r.first, r.length') in
    let (t, handled, routes, others) =
      delivered write_ok now c s from numbered payload session known fresh good r.source in
    let dst : inner_dst payload ≡ inner_dst packet =
      uint32_at-drop 16 payload
      ∙ ap (λ (b : List ℕ). uint32_at b 0) r.rest
      ∙ sym (uint32_at-drop 16 packet) in
    let bytes = encode_header (replicate header_size 0) (header_of c type_data) ++ payload in
    let sent =
      deliver-route write_ok t payload bytes id target
        (λ e. elsewhere (sym dst ∙ e ∙ routes.server_virtual_ip))
        (rw (dst, routes.route_table) route) (others id other ∙ known_target) in
    (
      bytes,
      payload,
      (deliver write_ok t payload bytes).0,
      tun_read-single paths_ok conn_ok c packet payload single kept run,
      handled ∙ ap (λ es. returns ((deliver write_ok t payload bytes).0, es)) sent,
      receive-datagram_of tun_ok later c d payload numbered device unseen,
      r,
    )
