-- ===== src/Server/Data/Panics.antt =====
-- handlePacket of internal/server/server.go: which datagrams end the server.
use mpfpv.Prelude.{
  ℕ, ◌≤◌, ◌≡◌, ◌↔◌, refl, arith, List, [], ◌∷◌, false, true, some, none, length, drop, Bool-cases,
  Option-cases, inl, inr, ltb, ◌==◌, length-drop, drop_all, leb, sym, ◌∙◌, nat_eq, Bool, ◌≢◌,
}
use mpfpv.Prelude.Map.{lookup, lookup-insert, beq_refl}
use mpfpv.Prelude.Outcome.{Result, ok, err, panics, returns, Returns}
use mpfpv.Prelude.Slices.{index}
use mpfpv.Protocol.Packet.{
  Header, DecodeError, decode_header, type_data, type_heartbeat, header_size,
}
use mpfpv.Protocol.Packet.Heartbeats.{decode_heartbeat-Returns}
use mpfpv.Protocol.Dedup.{is_duplicate}
use mpfpv.Protocol.Dedup.Sound.{IsSound}
use mpfpv.Server.State.{Addr, Server, ClientSession}
use mpfpv.Server.Heartbeat.{handle_heartbeat}
use mpfpv.Server.Data.{handle_packet, dispatch, handle_data, forward_data, count_rx}

-- A data packet without payload, that is not a duplicate, from a client that has a session.
pub record IsEmptyData (s : Server) (packet : List ℕ) : Type 0 where
  pub hdr : Header
  pub session : ClientSession
  pub decoded : decode_header packet ≡ ok hdr
  pub is_data : hdr.type ≡ type_data
  pub no_payload : length packet ≡ header_size
  pub fresh : (is_duplicate s.dedup hdr.client_id hdr.seq).0 ≡ false
  pub known : lookup hdr.client_id s.sessions ≡ some session

handle_heartbeat-Returns :
    (now : ℕ) (s : Server) (hdr : Header) (payload : List ℕ) (from : Addr)
    → Returns (handle_heartbeat now s hdr payload from)
unfolding handle_heartbeat
handle_heartbeat-Returns now s hdr payload from =
    let (decoded, e) = decode_heartbeat-Returns payload in rw e (_, refl)

pub dedup-count_rx :
    (s : Server) (c : ℕ) (from : Addr) (n : ℕ) → (count_rx s c from n).dedup ≡ s.dedup
unfolding count_rx
dedup-count_rx s c from n = ground arith

known-count_rx :
    (s : Server) (c : ℕ) (from : Addr) (n : ℕ)
    → (lookup c (count_rx s c from n).sessions ≡ none) ↔ (lookup c s.sessions ≡ none)
unfolding count_rx
known-count_rx s c from n = elim (Option-cases (lookup c s.sessions)) [
  | inl e ↦ rw (e, count_rx) (λ _. refl, λ _. e)
  | inr (session, e) ↦ rw (e, count_rx, lookup-insert, beq_refl c) (λ h. absurd cc, λ h. absurd cc)
]

only_header :
    (packet : List ℕ) → 8 ≤ length packet → drop header_size packet ≡ [] → length packet ≡ 8
only_header packet long e =
    let n : length (drop header_size packet) ≡ 0 = rw e refl in
    omega (arith, length-drop header_size packet, n)

no_rest : (packet : List ℕ) → length packet ≡ header_size → drop header_size packet ≡ []
no_rest packet e = drop_all header_size packet (omega arith)

pub decoded_long :
    (packet : List ℕ) (hdr : Header) → decode_header packet ≡ ok hdr → leb 8 (length packet) ≡ true
unfolding decode_header
decoded_long packet hdr e = ground (arith, e)

module _ (write_ok : Addr → Bool) where
  forward_data-panics :
      (now : ℕ) (s : Server) (c : ℕ) (payload : List ℕ) (from : Addr) (packet : List ℕ)
      (session : ClientSession)
      → (forward_data write_ok now s c payload from packet session ≡ panics) ↔ (payload ≡ [])
  unfolding forward_data index
  forward_data-panics now s c [] from packet session = (λ _. refl, λ _. refl)
  forward_data-panics now s c (b ∷ bs) from packet session = (λ h. ground arith, λ h. absurd cc)

  handle_data-panics :
      (now : ℕ) (s : Server) (hdr : Header) (payload : List ℕ) (from : Addr) (packet : List ℕ)
      → (handle_data write_ok now s hdr payload from packet ≡ panics) ↔ (
          (payload ≡ [])
          × ((is_duplicate s.dedup hdr.client_id hdr.seq).0 ≡ false)
          × (lookup hdr.client_id s.sessions ≢ none))
  unfolding handle_data
  handle_data-panics now s hdr payload from packet =
      elim (Bool-cases (is_duplicate s.dedup hdr.client_id hdr.seq).0) [
        | inl dup ↦ rw (dup, handle_data) (λ h. absurd cc, λ h. absurd cc)
        | inr fresh ↦ elim (Option-cases (lookup hdr.client_id s.sessions)) [
          | inl e ↦ rw (fresh, handle_data) (rw e (λ h. absurd cc, λ h. absurd (h.2 refl)))
          | inr (session, e) ↦
              rw (fresh, handle_data)
                (rw e (
                  λ h. (
                    (forward_data-panics now _ hdr.client_id payload from packet session).0 h,
                    refl,
                    λ h'. absurd cc,
                  ),
                  λ h. (forward_data-panics now _ hdr.client_id payload from packet session).1 h.0,
                ))
        ]
      ]

  dispatch-panics :
      (now : ℕ) (s : Server) (hdr : Header) (packet : List ℕ) (from : Addr)
      → (dispatch write_ok now s hdr packet from ≡ panics) ↔ (
          (hdr.type ≡ type_data)
          × (handle_data write_ok now s hdr (drop header_size packet) from packet ≡ panics))
  unfolding dispatch
  dispatch-panics now s hdr packet from =
      let (r, e) = handle_heartbeat-Returns now s hdr (drop header_size packet) from in
      elim (Bool-cases (hdr.type == type_heartbeat)) [
        | inl hb ↦ rw (hb, dispatch) (rw e (λ h. absurd cc, λ h. absurd (ground (arith, h.0))))
        | inr other_type ↦ elim (Bool-cases (hdr.type == type_data)) [
          | inl data' ↦ rw (other_type, data', dispatch) (λ h. (ground arith, h), λ h. h.1)
          | inr other ↦
              rw (other_type, other, dispatch) (λ h. absurd cc, λ h. absurd (ground (arith, h.0)))
        ]
      ]

  packet-IsEmptyData :
      (now : ℕ) (s : Server) (packet : List ℕ) (from : Addr) (hdr : Header)
      → leb 8 (length packet) ≡ true
      → decode_header packet ≡ ok hdr
      → dispatch write_ok now (count_rx s hdr.client_id from (length packet)) hdr packet from
        ≡ panics
      → IsEmptyData s packet
  packet-IsEmptyData now s packet from hdr long e h =
      let counted : Server = count_rx s hdr.client_id from (length packet) in
      let (is_data, h') = (dispatch-panics now counted hdr packet from).0 h in
      let (empty, fresh, known) =
        (handle_data-panics now counted hdr (drop header_size packet) from packet).0 h' in
      let same = dedup-count_rx s hdr.client_id from (length packet) in
      elim (Option-cases (lookup hdr.client_id s.sessions)) [
        | inl none' ↦ absurd (known ((known-count_rx s hdr.client_id from (length packet)).1 none'))
        | inr (session, found) ↦ record {
          hdr = hdr;
          session = session;
          decoded = e;
          is_data = is_data;
          no_payload = only_header packet (ground arith) empty;
          fresh = rw (sym same) fresh;
          known = found;
        }
      ]

  pub handle_packet-dispatch :
      (now : ℕ) (s : Server) (packet : List ℕ) (from : Addr) (hdr : Header)
      → decode_header packet ≡ ok hdr
      → handle_packet write_ok now s packet from
        ≡ dispatch write_ok now (count_rx s hdr.client_id from (length packet)) hdr packet from
  unfolding handle_packet
  handle_packet-dispatch now s packet from hdr e =
      elim (Bool-cases (ltb (length packet) header_size)) [
        | inl short ↦ absurd (ground (arith, decoded_long packet hdr e))
        | inr long ↦ rw (long, handle_packet) (rw e refl)
      ]

  handle_packet_refused :
      (now : ℕ) (s : Server) (packet : List ℕ) (from : Addr) (why : DecodeError)
      → decode_header packet ≡ err why
      → handle_packet write_ok now s packet from ≡ returns (s, [])
  unfolding handle_packet
  handle_packet_refused now s packet from why e =
      elim (Bool-cases (ltb (length packet) header_size)) [
        | inl short ↦ rw (short, handle_packet) refl
        | inr long ↦ rw (long, handle_packet) (rw e refl)
      ]

  handle_packet_decoded :
      (now : ℕ) (s : Server) (packet : List ℕ) (from : Addr) (r : Result DecodeError Header)
      → decode_header packet ≡ r
      → handle_packet write_ok now s packet from ≡ panics
      → IsEmptyData s packet
  handle_packet_decoded now s packet from (err why) e h =
      absurd (cc (h, handle_packet_refused now s packet from why e))
  handle_packet_decoded now s packet from (ok hdr) e h =
      packet-IsEmptyData now s packet from hdr (decoded_long packet hdr e) e
        (sym (handle_packet-dispatch now s packet from hdr e) ∙ h)

  -- The server panics on a datagram exactly if that is a data packet without payload that is not a
  -- duplicate and whose client has a session; no other datagram, heartbeats included, makes it
  -- read out of range. Two things are excluded: a window of the deduplicator for which its bitmaps
  -- are too short or that is 0, and a subnet of IPv6, which the state of the server cannot hold.
  pub handle_packet-panics :
      (now : ℕ) (s : Server) (packet : List ℕ) (from : Addr)
      → IsSound s.dedup
      → (handle_packet write_ok now s packet from ≡ panics) ↔ IsEmptyData s packet
  handle_packet-panics now s packet from sound = (
    handle_packet_decoded now s packet from (decode_header packet) refl,
    λ empty.
        let counted : Server = count_rx s empty.hdr.client_id from (length packet) in
        let same = dedup-count_rx s empty.hdr.client_id from (length packet) in
        let known = known-count_rx s empty.hdr.client_id from (length packet) in
        handle_packet-dispatch now s packet from empty.hdr empty.decoded
        ∙ (dispatch-panics now counted empty.hdr packet from).1 (
          empty.is_data,
          (handle_data-panics now counted empty.hdr (drop header_size packet) from packet).1 (
            no_rest packet empty.no_payload,
            rw same empty.fresh,
            λ gone. absurd (cc (empty.known, known.0 gone)),
          ),
        ),
  )
