-- ===== src/Client/Receiving/Acks.antt =====
-- handleHeartbeatAck of internal/client/client.go: what an acknowledgement of the server leaves.
use mpfpv.Prelude.{
  ℕ, ◌≡◌, ◌⊎◌, refl, arith, List, Bool, true, false, not, ◌&&◌, ltb, length, Bool-cases, inl, inr,
}
use mpfpv.Prelude.Outcome.{Run, returns, panics, ◌>>=◌}
use mpfpv.Protocol.Packet.{to4, be32, header_size, ack_status_ok}
use mpfpv.Server.Heartbeat.Replies.{IsAck}
use mpfpv.Server.Data.Panics.{decoded_long}
use mpfpv.Client.State.{Client, ClientStep}
use mpfpv.Client.Receiving.{
  accept_ack, setup_tun, handle_heartbeat_ack, dispatch, receive_with, receive, track_rtt,
}

-- The client is registered with this address and prefix length, and waits for nothing.
pub record HasAddress (c : Client) (ip ones : ℕ) : Type 0 where
  pub registered : c.registered ≡ true
  pub virtual_ip : c.virtual_ip ≡ be32 ip
  pub prefix_len : c.prefix_len ≡ ones

abbrev pub LeavesAddress : ℕ → ℕ → Run ClientStep → Type 0
LeavesAddress ip prefix_len panics = ⊥
LeavesAddress ip prefix_len (returns (c, effects)) = HasAddress c ip prefix_len

module _ (tun_ok : List ℕ → ℕ → Bool) (c : Client)
    (ready : (c.registered ≡ true) ⊎ (c.tun_ready_closed ≡ false)) where
  accept_ack-LeavesAddress :
      (ip prefix_len status mtu : ℕ)
      → LeavesAddress ip prefix_len (
          accept_ack tun_ok
            (record { assigned_ip = be32 ip; prefix_len = prefix_len; status = status; mtu = mtu })
            c)
  unfolding setup_tun to4
  accept_ack-LeavesAddress ip prefix_len status mtu =
      elim (Bool-cases (not c.registered && not c.tun_dev)) [
        | inr later ↦ rw later (record { registered = refl; virtual_ip = refl; prefix_len = refl })
        | inl first ↦
            let open' : c.tun_ready_closed ≡ false = ground (arith, first, ready) in
            rw (first, open') (record { registered = refl; virtual_ip = refl; prefix_len = refl })
      ]

  LeavesAddress-track :
      (now ip prefix_len : ℕ) (r : Run ClientStep)
      → LeavesAddress ip prefix_len r
      → LeavesAddress ip prefix_len (r >>= λ (c', effects). returns (track_rtt now c', effects))
  LeavesAddress-track now ip prefix_len panics h = h
  LeavesAddress-track now ip prefix_len (returns (c', effects)) h = record {
    registered = ground (arith, h.registered);
    virtual_ip = ground (arith, h.virtual_ip);
    prefix_len = ground (arith, h.prefix_len);
  }

  -- An acknowledgement with status OK.
  pub receive-LeavesAddress :
      (now : ℕ) (bytes : List ℕ) (seq ip prefix_len mtu : ℕ)
      → IsAck bytes seq ip prefix_len ack_status_ok mtu
      → LeavesAddress ip prefix_len (receive tun_ok now c bytes)
  unfolding receive receive_with dispatch handle_heartbeat_ack
  receive-LeavesAddress now bytes seq ip prefix_len mtu ack =
      let long : ltb (length bytes) header_size ≡ false =
        ground (arith, decoded_long bytes _ ack.header) in
      rw long (
        rw (ack.header) (
          rw (ack.payload) (
            LeavesAddress-track now ip prefix_len _
              (accept_ack-LeavesAddress ip prefix_len ack_status_ok mtu))))
