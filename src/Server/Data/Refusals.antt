-- ===== src/Server/Data/Refusals.antt =====
-- Heartbeats that handlePacket of internal/server/server.go refuses, from the datagram on.
use mpfpv.Prelude.{ℕ, ◌≡◌, refl, sym, ◌∙◌, ap, List, Bool, length, drop, nat_eq}
use mpfpv.Prelude.Map.{lookup}
use mpfpv.Prelude.Outcome.{ok, returns}
use mpfpv.Protocol.Packet.{
  Header, HeartbeatPayload, decode_header, decode_heartbeat, header_size, type_heartbeat,
}
use mpfpv.Server.State.{Addr, Server, Effect}
use mpfpv.Server.Heartbeat.{handle_heartbeat, check_heartbeat}
use mpfpv.Server.Heartbeat.Replies.{
  IsRefused, wrong_team, no_client, conflict, check_heartbeat_refused,
}
use mpfpv.Server.Data.{handle_packet, count_rx}
use mpfpv.Server.Data.Counting.{
  IsCounted, with_session_bytes, count_rx-IsCounted, count_rx_rest, dispatch-handle_heartbeat,
}
use mpfpv.Server.Data.Panics.{handle_packet-dispatch}

-- A heartbeat is refused no less after its bytes are counted.
count_rx-IsRefused :
    (s : Server) (hdr : Header) (hb : HeartbeatPayload) (from : Addr) (n : ℕ)
    → IsRefused s hdr hb
    → IsRefused (count_rx s hdr.client_id from n) hdr hb
count_rx-IsRefused s hdr hb from n (wrong_team other) =
    wrong_team
      (λ e. other (e ∙ ap (λ (t : Server). t.team_key_hash) (count_rx_rest s hdr.client_id from n)))
count_rx-IsRefused s hdr hb from n (no_client none') = no_client none'
count_rx-IsRefused s hdr hb from n (conflict session known nonzero other) =
    conflict _
      ((count_rx-IsCounted s hdr.client_id from n).own ∙ ap (with_session_bytes from n) known)
      nonzero other

-- A heartbeat with another team's key, with client ID 0, or with an address that is neither
-- 0.0.0.0 nor that of the client's session changes nothing in the server but its own sequence
-- number and the counts of bytes received, of which there are three: the total, that of the
-- client's session, and that of the sender's address.
pub handle_packet-IsRefused :
    (write_ok : Addr → Bool) (now : ℕ) (s : Server) (packet : List ℕ) (from : Addr) (hdr : Header)
    (hb : HeartbeatPayload)
    → decode_header packet ≡ ok hdr
    → hdr.type ≡ type_heartbeat
    → decode_heartbeat (drop header_size packet) ≡ returns (ok hb)
    → IsRefused s hdr hb
    → (t : Server) × (es : List Effect) × (handle_packet write_ok now s packet from
        ≡ returns (t, es))
      × IsCounted s t hdr.client_id from (length packet)
      × (t ≡ record s { sessions = t.sessions; total_rx = t.total_rx; seq = t.seq })
unfolding handle_heartbeat
handle_packet-IsRefused write_ok now s packet from hdr hb decoded beat payload refused =
    let n = length packet in
    let counted : Server = count_rx s hdr.client_id from n in
    let step = check_heartbeat now counted hdr hb from in
    let same =
      check_heartbeat_refused now counted hdr hb from
        (count_rx-IsRefused s hdr hb from n refused) in
    let c = count_rx-IsCounted s hdr.client_id from n in
    (
      step.0,
      step.1,
      handle_packet-dispatch write_ok now s packet from hdr decoded
          ∙ dispatch-handle_heartbeat write_ok now counted hdr packet from beat
          ∙ rw payload refl,
      record {
        total = ap (λ (t : Server). t.total_rx) same ∙ c.total;
        own = ap (λ (t : Server). lookup hdr.client_id t.sessions) same ∙ c.own;
        others = λ other differs.
            ap (λ (t : Server). lookup other t.sessions) same ∙ c.others other differs;
      },
      same
          ∙ ap (λ (x : Server). record x { seq = step.0.seq })
              (count_rx_rest s hdr.client_id from n)
          ∙ ap
              (λ (x : Server). record s {
                sessions = x.sessions;
                total_rx = x.total_rx;
                seq = step.0.seq;
              })
              (sym same),
    )
