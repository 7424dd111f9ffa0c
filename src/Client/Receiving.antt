-- ===== src/Client/Receiving.antt =====
-- recvLoop, recvLoopMultipath, handleHeartbeatAck and handleData of internal/client/client.go: what
-- one datagram from the server does. Whether a TUN device can be created is a parameter.
pub mod Acks
use mpfpv.Prelude.{
  ℕ, ◌-◌, List, [], ◌∷◌, Bool, true, false, not, ◌&&◌, Option, none, some, ltb, ◌==◌, if◌then◌else◌,
  length, drop,
}
use mpfpv.Prelude.Outcome.{Result, ok, err, Run, returns, panics, ◌>>=◌, ◌>>◌}
use mpfpv.Protocol.Dedup.{is_duplicate}
use mpfpv.Protocol.Packet.{
  Header, HeartbeatAckPayload, DecodeError, decode_header, decode_heartbeat_ack, header_size, to4,
  type_data, type_heartbeat_ack, ack_status_ok,
}
use mpfpv.Config.{is_empty}
use mpfpv.Transport.Paths.{Sender, update_rtt}
use mpfpv.Client.State.{Client, ClientEffect, tun_write, create_tun, ClientStep}

-- A net.IP that is nil has no bytes.
abbrev bytes_or_nil : Option (List ℕ) → List ℕ
bytes_or_nil none = []
bytes_or_nil (some ip) = ip

abbrev store_ack : HeartbeatAckPayload → Client → Client
store_ack ack c = record c {
  virtual_ip = bytes_or_nil (to4 ack.assigned_ip);
  prefix_len = ack.prefix_len;
  server_mtu = if ltb 0 ack.mtu then ack.mtu else c.server_mtu;
  registered = true;
}

-- close(c.tunReady): closing a closed channel panics.
abbrev close_ready : ClientStep → Run ClientStep
close_ready (c, effects) =
    if c.tun_ready_closed then panics else returns (record c { tun_ready_closed = true }, effects)

abbrev write_tun : Client → List ℕ → List ClientEffect
write_tun c payload = if c.tun_dev then tun_write payload ∷ [] else []

unfoldable pub handle_data : Client → Header → List ℕ → ClientStep
handle_data c hdr payload =
    let (dup, dedup) = is_duplicate c.dedup hdr.client_id hdr.seq in
    let c' : Client = record c { dedup = dedup } in (c', if dup then [] else write_tun c' payload)

-- The RTT of the virtual path, once a heartbeat was sent.
abbrev since : ℕ → Option ℕ → ℕ → ℕ
since now none old = old
since now (some sent_at) old = now - sent_at

abbrev pub track_rtt : ℕ → Client → Client
track_rtt now c =
    if is_empty c.virtual_path_name
    then c
    else record c { last_rtt = since now c.last_heartbeat_sent c.last_rtt }

-- c.multipath.UpdateRTT(pkt.FromPath, rtt), once a heartbeat was sent.
abbrev pub update_path : ℕ → List ℕ → Option Sender → Option ℕ → Option Sender
update_path now from_path none sent_at = none
update_path now from_path (some m) none = some m
update_path now from_path (some m) (some sent_at) =
    some (update_rtt now m from_path (now - sent_at))

abbrev pub track_path : ℕ → List ℕ → Client → Client
track_path now from_path c = record c {
  multipath = update_path now from_path c.multipath c.last_heartbeat_sent;
}

module _ (tun_ok : List ℕ → ℕ → Bool) where
  unfoldable pub setup_tun : Client → ClientStep
  setup_tun c = (
    record c { tun_dev = tun_ok c.virtual_ip c.prefix_len },
    create_tun c.virtual_ip c.prefix_len ∷ [],
  )

  -- `c` is the client before the acknowledgement.
  abbrev pub accept_ack : HeartbeatAckPayload → Client → Run ClientStep
  accept_ack ack c =
      if not c.registered && not c.tun_dev
      then close_ready (setup_tun (store_ack ack c))
      else returns (store_ack ack c, [])

  abbrev pub decoded_ack : Client → Result DecodeError HeartbeatAckPayload → Run ClientStep
  decoded_ack c (err e) = returns (c, [])
  decoded_ack c (ok ack) = if ack.status == ack_status_ok then accept_ack ack c else returns (c, [])

  unfoldable pub handle_heartbeat_ack : Client → List ℕ → Run ClientStep
  handle_heartbeat_ack c payload = decoded_ack c (decode_heartbeat_ack payload)

  -- The three cases of the header's type; `track` is what the loop does after an acknowledgement.
  unfoldable pub dispatch : (Client → Client) → Client → List ℕ → Header → Run ClientStep
  dispatch track c packet hdr =
      if hdr.type == type_heartbeat_ack
      then (do
        (c', effects) ← handle_heartbeat_ack c (drop header_size packet)
        returns (track c', effects))
      else if hdr.type == type_data
      then returns (handle_data c hdr (drop header_size packet))
      else returns (c, [])

  abbrev pub received :
      (Client → Client) → Client → List ℕ → Result DecodeError Header → Run ClientStep
  received track c packet (err e) = returns (c, [])
  received track c packet (ok hdr) = dispatch track c packet hdr

  unfoldable pub receive_with : (Client → Client) → Client → List ℕ → Run ClientStep
  receive_with track c packet =
      if ltb (length packet) header_size
      then returns (c, [])
      else received track c packet (decode_header packet)

  -- One round of `recvLoop`, and one of `recvLoopMultipath`.
  unfoldable pub receive : ℕ → Client → List ℕ → Run ClientStep
  receive now c packet = receive_with (track_rtt now) c packet

  unfoldable pub receive_multipath : ℕ → Client → List ℕ → List ℕ → Run ClientStep
  receive_multipath now c packet from_path = receive_with (track_path now from_path) c packet
