-- ===== src/Client/Running/Incoming.antt =====
-- What the client of internal/client/client.go receives panics no step either.
use mpfpv.Prelude.{
  ℕ, ◌≡◌, ◌-◌, ltb, refl, arith, List, drop, Bool, false, not, ◌&&◌, Option, none, some, Bool-cases,
  inl, inr, length, ◌==◌,
}
use mpfpv.Prelude.Outcome.{Result, ok, err}
use mpfpv.Transport.Paths.{Sender, count_received}
use mpfpv.Transport.Open.{AllOpen-update_rtt, AllOpen-count_received}
use mpfpv.Protocol.Dedup.Sound.{is_duplicate-IsSound}
use mpfpv.Client.State.{Client}
use mpfpv.Client.Receiving.{
  receive, receive_multipath, receive_with, dispatch, handle_heartbeat_ack, handle_data, setup_tun,
  track_rtt, track_path, update_path, accept_ack, decoded_ack, received,
}
use mpfpv.Config.{is_empty}
use mpfpv.Protocol.Packet.{
  Header, HeartbeatAckPayload, DecodeError, decode_header, decode_heartbeat_ack, header_size,
  type_data, type_heartbeat_ack, ack_status_ok,
}
use mpfpv.Client.Running.{receive_over, World}
use mpfpv.Client.Running.Invariant.{OpenPaths, IsRunnable, GoesOn, GoesOn-bind}

module _ (tun_ok : List ℕ → ℕ → Bool) where
  accept_ack-GoesOn :
      (c : Client) (ack : HeartbeatAckPayload) → IsRunnable c → GoesOn (accept_ack tun_ok ack c)
  unfolding setup_tun
  accept_ack-GoesOn c ack ok' = elim (Bool-cases (not c.registered && not c.tun_dev)) [
    | inr later ↦ rw later (record { ready = inl refl; paths = ok'.paths; window = ok'.window })
    | inl first ↦
        let open' : c.tun_ready_closed ≡ false = ground (arith, first, ok'.ready) in
        rw first (rw open' (record { ready = inl refl; paths = ok'.paths; window = ok'.window }))
  ]

  decoded_ack-GoesOn :
      (c : Client) (r : Result DecodeError HeartbeatAckPayload)
      → IsRunnable c
      → GoesOn (decoded_ack tun_ok c r)
  decoded_ack-GoesOn c (err e) ok' = ok'
  decoded_ack-GoesOn c (ok ack) ok' = elim (Bool-cases (ack.status == ack_status_ok)) [
    | inl accepted ↦ rw accepted (accept_ack-GoesOn c ack ok')
    | inr refused ↦ rw refused ok'
  ]

  dispatch-GoesOn :
      (track : Client → Client) (c : Client) (packet : List ℕ) (hdr : Header)
      → ((c' : Client) → IsRunnable c' → IsRunnable (track c'))
      → IsRunnable c
      → GoesOn (dispatch tun_ok track c packet hdr)
  unfolding dispatch handle_heartbeat_ack handle_data
  dispatch-GoesOn track c packet hdr keeps ok' =
      elim (Bool-cases (hdr.type == type_heartbeat_ack)) [
        | inl ack ↦ rw ack (
            GoesOn-bind _ _
              (decoded_ack-GoesOn c (decode_heartbeat_ack (drop header_size packet)) ok')
              (λ c' effects good. keeps c' good))
        | inr other ↦ elim (Bool-cases (hdr.type == type_data)) [
          | inl data' ↦
              rw (other, data')
                (record {
                  ready = ok'.ready;
                  paths = ok'.paths;
                  window = is_duplicate-IsSound c.dedup hdr.client_id hdr.seq ok'.window;
                })
          | inr unknown ↦ rw (other, unknown) ok'
        ]
      ]

  received-GoesOn :
      (track : Client → Client) (c : Client) (packet : List ℕ) (r : Result DecodeError Header)
      → ((c' : Client) → IsRunnable c' → IsRunnable (track c'))
      → IsRunnable c
      → GoesOn (received tun_ok track c packet r)
  received-GoesOn track c packet (err e) keeps ok' = ok'
  received-GoesOn track c packet (ok hdr) keeps ok' = dispatch-GoesOn track c packet hdr keeps ok'

  receive_with-GoesOn :
      (track : Client → Client) (c : Client) (packet : List ℕ)
      → ((c' : Client) → IsRunnable c' → IsRunnable (track c'))
      → IsRunnable c
      → GoesOn (receive_with tun_ok track c packet)
  unfolding receive_with
  receive_with-GoesOn track c packet keeps ok' =
      elim (Bool-cases (ltb (length packet) header_size)) [
        | inl short ↦ rw short ok'
        | inr long ↦ rw long (received-GoesOn track c packet (decode_header packet) keeps ok')
      ]

track_rtt-IsRunnable : (now : ℕ) (c : Client) → IsRunnable c → IsRunnable (track_rtt now c)
track_rtt-IsRunnable now c ok' = elim (Bool-cases (is_empty c.virtual_path_name)) [
  | inl none' ↦ rw none' ok'
  | inr some' ↦ rw some' (record { ready = ok'.ready; paths = ok'.paths; window = ok'.window })
]

OpenPaths-update_path :
    (now : ℕ) (from_path : List ℕ) (o : Option Sender) (sent_at : Option ℕ)
    → OpenPaths o
    → OpenPaths (update_path now from_path o sent_at)
OpenPaths-update_path now from_path none sent_at all = tt
OpenPaths-update_path now from_path (some m) none all = all
OpenPaths-update_path now from_path (some m) (some t) all =
    AllOpen-update_rtt now m from_path (now - t) all

track_path-IsRunnable :
    (now : ℕ) (from_path : List ℕ) (c : Client)
    → IsRunnable c
    → IsRunnable (track_path now from_path c)
track_path-IsRunnable now from_path c ok' = record {
  ready = ok'.ready;
  paths = OpenPaths-update_path now from_path c.multipath c.last_heartbeat_sent ok'.paths;
  window = ok'.window;
}

pub receive_over-GoesOn :
    (w : World) (now : ℕ) (c : Client) (bytes from_path : List ℕ) (o : Option Sender)
    → IsRunnable c
    → OpenPaths o
    → GoesOn (receive_over w now c bytes from_path o)
unfolding receive receive_multipath
receive_over-GoesOn w now c bytes from_path none ok' open' =
    receive_with-GoesOn w.tun_ok (track_rtt now) c bytes (track_rtt-IsRunnable now) ok'
receive_over-GoesOn w now c bytes from_path (some m) ok' open' =
    let m' : Sender = count_received from_path (length bytes) m in
    receive_with-GoesOn w.tun_ok (track_path now from_path) (record c { multipath = some m' }) bytes
      (track_path-IsRunnable now from_path)
      (record {
        ready = ok'.ready;
        paths = AllOpen-count_received from_path (length bytes) m open';
        window = ok'.window;
      })
