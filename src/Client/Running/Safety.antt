-- ===== src/Client/Running/Safety.antt =====
-- The rounds of the client's loops, in any order: no end of the program.
use mpfpv.Prelude.{
  ℕ, zero, suc, ◌+◌, ◌^◌, ◌<◌, ◌⊎◌, false, ◌≡◌, refl, subst, arith, List, [], ◌∷◌, Bool, true,
  Option, none, some, Bool-cases, inl, inr,
}
use mpfpv.Prelude.Outcome.{returns, ◌>>=◌, ok}
use mpfpv.Transport.Paths.{Sender}
use mpfpv.Transport.Open.Recycling.{check_and_recycle-open, on_interface_change-open}
use mpfpv.Prelude.Int.{ℤ, pos, negsuc}
use mpfpv.Protocol.Dedup.{new_deduplicator}
use mpfpv.Protocol.Dedup.Sound.{new-IsSound}
use mpfpv.Client.State.{Client, ClientEffect, start, new_section, window_of}
use mpfpv.Client.Sending.{
  to_server, send_heartbeat, send_payload, next_seq, heartbeat_bytes, virtual_suffix, data_packet,
}
use mpfpv.Config.{ClientConfig}
use mpfpv.Transport.Changes.{InterfaceInfo}
use mpfpv.Client.Running.{
  beat, recycle, change_paths, World, Event, initial, tick, datagram, tun_packet, send_call, change,
  step, run,
}
use mpfpv.Client.Running.Invariant.{
  OpenPaths, IsRunnable, GoesOn, GoesOn-bind, GoesOn-if, heartbeat_over-IsRunnable,
  to_server_over-IsRunnable, tun_read-GoesOn,
}
use mpfpv.Client.Running.Incoming.{receive_over-GoesOn}

-- A new socket can always be bound, in this round.
pub record Binds (w : World) : Type 0 where
  pub binds : (name : List ℕ) → w.can_bind name ≡ true

beat-IsRunnable : (w : World) (now : ℕ) (c : Client) → IsRunnable c → IsRunnable (beat w now c).0
unfolding send_heartbeat
beat-IsRunnable w now c ok' =
    heartbeat_over-IsRunnable w.write_ok w.conn_ok
      (record (next_seq c) { last_heartbeat_sent = some now }) (heartbeat_bytes c)
      (virtual_suffix c) c.multipath
      (record { ready = ok'.ready; paths = ok'.paths; window = ok'.window }) ok'.paths

recycle-GoesOn :
    (w : World) (now : ℕ) (c : Client) (o : Option Sender) (effects : List ClientEffect)
    → Binds w
    → IsRunnable c
    → OpenPaths o
    → GoesOn (recycle w now c o >>= λ c'. returns (c', effects))
recycle-GoesOn w now c none effects b ok' open' = ok'
recycle-GoesOn w now c (some m) effects b ok' open' =
    let (m', e, all) = check_and_recycle-open w.can_bind b.binds now m open' in
    rw e (record { ready = ok'.ready; paths = all; window = ok'.window })

change_paths-GoesOn :
    (w : World) (now : ℕ) (added removed : List InterfaceInfo) (c : Client) (o : Option Sender)
    → IsRunnable c
    → OpenPaths o
    → GoesOn (change_paths w now added removed c o)
change_paths-GoesOn w now added removed c none ok' open' = ok'
change_paths-GoesOn w now added removed c (some m) ok' open' =
    let (m', b, e, all) =
      on_interface_change-open w.server_is_ipv4 w.can_bind_addr now added removed m open' in
    let c' : Client = record c { multipath = some m' } in
    let good : IsRunnable c' = record { ready = ok'.ready; paths = all; window = ok'.window } in
    rw e (elim (Bool-cases b) [
      | inl triggered ↦ rw triggered (beat-IsRunnable w now c' good)
      | inr quiet ↦ rw quiet good
    ])

step-GoesOn :
    (w : World) (now : ℕ) (c : Client) (event : Event)
    → Binds w
    → IsRunnable c
    → GoesOn (step w now c event)
unfolding step send_payload to_server
step-GoesOn w now c initial b ok' = beat-IsRunnable w now c ok'
step-GoesOn w now c tick b ok' =
    let good = beat-IsRunnable w now c ok' in recycle-GoesOn w now _ _ _ b good good.paths
step-GoesOn w now c (datagram bytes from_path) b ok' =
    receive_over-GoesOn w now c bytes from_path c.multipath ok' ok'.paths
step-GoesOn w now c (tun_packet packet) b ok' =
    GoesOn-if c.tun_dev _ _ (tun_read-GoesOn w.write_ok w.conn_ok c packet ok') ok'
step-GoesOn w now c (send_call payload) b ok' =
    to_server_over-IsRunnable w.write_ok w.conn_ok (next_seq c) (data_packet c payload) c.multipath
      (record { ready = ok'.ready; paths = ok'.paths; window = ok'.window }) ok'.paths
step-GoesOn w now c (change added removed) b ok' =
    change_paths-GoesOn w now added removed c c.multipath ok' ok'.paths

abbrev pub AllBind : List (World × ℕ × Event) → Type 0
AllBind [] = Unit
AllBind ((w, now, event) ∷ rest) = Binds w × AllBind rest

pub run-GoesOn :
    (c : Client) (events : List (World × ℕ × Event))
    → IsRunnable c
    → AllBind events
    → GoesOn (run c events)
unfolding run
run-GoesOn c [] ok' b = ok'
run-GoesOn c ((w, now, event) ∷ rest) ok' (b, more) =
    GoesOn-bind (step w now c event) _ (step-GoesOn w now c event b ok') (λ c' effects good.
      GoesOn-bind (run c' rest) _ (run-GoesOn c' rest good more) (λ c'' more' good'. good'))

module _ (fnv32a : List ℕ → ℕ) (machine_id : List ℕ) (sha256 : List ℕ → List ℕ)
    (resolves : List ℕ → Bool) (hostname : List ℕ) where
  clients-window_of : (z : ℤ) → (new_deduplicator z).clients ≡ []
  unfolding new_deduplicator
  clients-window_of (pos zero) = refl
  clients-window_of (pos (suc n)) = refl
  clients-window_of (negsuc n) = refl

  pub new_section-IsRunnable :
      (team_key : List ℕ) (o : Option ClientConfig) (c : Client)
      → new_section fnv32a machine_id sha256 resolves hostname team_key o ≡ ok c
      → 0 < c.dedup.window_size
      → c.dedup.window_size + 63 < 2 ^ 32
      → IsRunnable c
  new_section-IsRunnable team_key none c h positive small = absurd cc
  new_section-IsRunnable team_key (some cc) c h positive small =
      elim (Bool-cases (resolves cc.server_addr)) [
        | inl found ↦
            let same : start fnv32a machine_id sha256 resolves hostname team_key cc ≡ c =
              ground (arith, found, h) in
            let dedup : c.dedup.clients ≡ [] =
              rw (← same) (clients-window_of (window_of cc.dedup_window)) in
            let runs : ((c.registered ≡ true) ⊎ (c.tun_ready_closed ≡ false))
                × OpenPaths c.multipath =
              subst
                (λ (x : Client).
                  ((x.registered ≡ true) ⊎ (x.tun_ready_closed ≡ false)) × OpenPaths x.multipath)
                same (inr refl, tt) in
            record {
              ready = runs.0;
              paths = runs.1;
              window = new-IsSound c.dedup dedup positive small;
            }
        | inr unknown ↦ absurd (ground (arith, unknown, h))
      ]
