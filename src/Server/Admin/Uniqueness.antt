-- ===== src/Server/Admin/Uniqueness.antt =====
-- The device API of internal/server/webapi.go keeps the addresses of the pool apart.
use mpfpv.Prelude.{
  ℕ, ◌≡◌, ◌≢◌, refl, ◌∙◌, ap, arith, List, [], ◌∷◌, true, false, Option, none, some, ◌==◌, ==_refl,
  nat_eq, Bool-cases, Option-cases, inl, inr,
}
use mpfpv.Prelude.Map.{Map, lookup, insert, delete, lookup-insert, lookup-delete}
use mpfpv.Prelude.Outcome.{ok}
use mpfpv.Server.State.{Addr, AddrInfo, Server, ClientSession, Effect}
use mpfpv.Server.Send.{send_heartbeat_ack}
use mpfpv.Server.Pool.Alloc.{AreDistinct, HasDistinctIps, insert-HasDistinctIps}
use mpfpv.Server.Admin.{
  assigned_to_other, notify_all, move_device, assign_device, update_device_ip, delete_device,
  drop_session, contains,
}

unassigned :
    (m : Map ℕ ℕ) (c ip a : ℕ) → assigned_to_other c ip m ≡ false → lookup a m ≡ some ip → a ≡ c
unfolding assigned_to_other lookup
unassigned [] c ip a free e = absurd cc
unassigned ((k, v) ∷ m) c ip a free e = ground (arith, free, e, ==_refl ip, unassigned m c ip a)

pool-notify_all :
    (addrs : Map Addr AddrInfo) (s : Server) (ip : ℕ)
    → ((notify_all s ip addrs).0.ip_pool ≡ s.ip_pool)
      × ((notify_all s ip addrs).0.server_virtual_ip ≡ s.server_virtual_ip)
      × ((notify_all s ip addrs).0.route_table ≡ s.route_table)
unfolding notify_all send_heartbeat_ack
pool-notify_all [] s ip = (refl, refl, refl)
pool-notify_all ((key, ai) ∷ rest) s ip =
    pool-notify_all rest (send_heartbeat_ack s ai.addr ip s.prefix_len 0).0 ip

pool-move_device :
    (s : Server) (c old ip : ℕ)
    → ((move_device s c old ip).0.ip_pool ≡ insert c ip s.ip_pool)
      × ((move_device s c old ip).0.server_virtual_ip ≡ s.server_virtual_ip)
      × ((move_device s c old ip).0.route_table ≡ insert ip c (delete old s.route_table))
unfolding move_device
pool-move_device s c old ip = elim (Option-cases (lookup c s.sessions)) [
  | inl e ↦ rw (e, move_device) (refl, refl, refl)
  | inr (session, e) ↦ rw (e, move_device) (pool-notify_all session.addrs _ ip)
]

move_device-HasDistinctIps :
    (s : Server) (c old ip : ℕ)
    → HasDistinctIps s
    → ip ≢ s.server_virtual_ip
    → assigned_to_other c ip s.ip_pool ≡ false
    → HasDistinctIps (move_device s c old ip).0
move_device-HasDistinctIps s c old ip h own free =
    let (pool, server, routes) = pool-move_device s c old ip in
    rw (pool, server)
      (insert-HasDistinctIps s c ip h own (λ a e. unassigned s.ip_pool c ip a free e))

assign_device_ok :
    (s t : Server) (c ip : ℕ) (es : List Effect)
    → assign_device s c ip ≡ ok (t, es)
    → (assigned_to_other c ip s.ip_pool ≡ false) × (old : ℕ) × (t ≡ (move_device s c old ip).0)
unfolding assign_device
assign_device_ok s t c ip es e = elim (Option-cases (lookup c s.ip_pool)) [
  | inl none' ↦ absurd (ground (arith, e))
  | inr (old, found) ↦ elim (Bool-cases (assigned_to_other c ip s.ip_pool)) [
    | inl taken ↦ absurd (ground (arith, e))
    | inr free ↦ (free, old, ground (arith, e))
  ]
]

update_device_ip-assign :
    (s t : Server) (c ip : ℕ) (es : List Effect)
    → update_device_ip s c (some ip) ≡ ok (t, es)
    → (contains s.subnet ip ≡ true)
      × (ip ≢ s.server_virtual_ip)
      × (assign_device s c ip ≡ ok (t, es))
unfolding update_device_ip
update_device_ip-assign s t c ip es e = elim (Bool-cases (contains s.subnet ip)) [
  | inr outside ↦ absurd (ground (arith, e))
  | inl inside ↦ elim (Bool-cases (ip == s.server_virtual_ip)) [
    | inl own ↦ absurd (ground (arith, e))
    | inr other ↦ (inside, λ same. ground arith, ground (arith, e))
  ]
]

-- If the addresses of the pool are distinct and the update of a device's address is accepted, the
-- new address is in the subnet, it is the device's in the pool and in the route table, and the
-- addresses of the pool are distinct again, the server's among them.
pub update_device_ip_ok :
    (s t : Server) (c ip : ℕ) (es : List Effect)
    → HasDistinctIps s
    → update_device_ip s c (some ip) ≡ ok (t, es)
    → (contains s.subnet ip ≡ true)
      × (lookup c t.ip_pool ≡ some ip)
      × (lookup ip t.route_table ≡ some c)
      × HasDistinctIps t
update_device_ip_ok s t c ip es h e =
    let (inside, other, assigned) = update_device_ip-assign s t c ip es e in
    let (free, old, moved) = assign_device_ok s t c ip es assigned in
    let (pool, server, routes) = pool-move_device s c old ip in
    (
      inside,
      rw (moved, pool, lookup-insert, ==_refl c) refl,
      rw (moved, routes, lookup-insert, ==_refl ip) refl,
      rw moved (move_device-HasDistinctIps s c old ip h other free),
    )

without : Server → ℕ → ℕ → Server
without s c old = record s {
  ip_pool = delete c s.ip_pool;
  ip_pool_names = delete c s.ip_pool_names;
  route_table = delete old s.route_table;
}

drop_session_fields :
    (s : Server) (c : ℕ) (o : Option ClientSession)
    → lookup c s.sessions ≡ o
    → ((drop_session s c o).ip_pool ≡ s.ip_pool)
      × ((drop_session s c o).ip_pool_names ≡ s.ip_pool_names)
      × ((drop_session s c o).route_table ≡ s.route_table)
      × ((drop_session s c o).server_virtual_ip ≡ s.server_virtual_ip)
      × (lookup c (drop_session s c o).sessions ≡ none)
drop_session_fields s c none e = (refl, refl, refl, refl, e)
drop_session_fields s c (some session) e =
    (refl, refl, refl, refl, rw (lookup-delete c c s.sessions, ==_refl c) refl)

delete_device-drop_session :
    (s t : Server) (c old : ℕ) (es : List Effect)
    → lookup c s.ip_pool ≡ some old
    → delete_device s c ≡ ok (t, es)
    → t ≡ drop_session (without s c old) c (lookup c s.sessions)
unfolding delete_device without
delete_device-drop_session s t c old es had e = ground (arith, had, e)

delete-HasDistinctIps :
    (s : Server) (c : ℕ) → HasDistinctIps s → AreDistinct s.server_virtual_ip (delete c s.ip_pool)
delete-HasDistinctIps s c h = record {
  distinct = λ a b v p q.
      ground
        (arith, lookup-delete c a s.ip_pool, lookup-delete c b s.ip_pool, h.distinct a b v, p, q);
  not_server = λ a p. ground (arith, lookup-delete c a s.ip_pool, h.not_server a, p);
}

-- A device that is deleted has no entry in the pool, the names and the sessions, no route leads to
-- the address that it had, the other clients keep theirs, and distinct addresses stay distinct.
delete_device_ok :
    (s t : Server) (c old : ℕ) (es : List Effect)
    → lookup c s.ip_pool ≡ some old
    → delete_device s c ≡ ok (t, es)
    → (lookup c t.ip_pool ≡ none)
      × (lookup c t.ip_pool_names ≡ none)
      × (lookup c t.sessions ≡ none)
      × (lookup old t.route_table ≡ none)
      × ((j : ℕ) → j ≢ c → lookup j t.ip_pool ≡ lookup j s.ip_pool)
      × (HasDistinctIps s → HasDistinctIps t)
unfolding without
delete_device_ok s t c old es had e =
    let same = delete_device-drop_session s t c old es had e in
    let (pool, names, routes, server, gone) =
      drop_session_fields (without s c old) c (lookup c s.sessions) refl in
    (
      rw (same, pool, lookup-delete c c s.ip_pool, ==_refl c) refl,
      rw (same, names, lookup-delete c c s.ip_pool_names, ==_refl c) refl,
      rw same gone,
      rw (same, routes, lookup-delete old old s.route_table, ==_refl old) refl,
      λ j other.
          ap (lookup j) (ap (λ x. x.ip_pool) same ∙ pool)
          ∙ ground (arith, lookup-delete c j s.ip_pool, other),
      λ h. rw (same, pool, server) (delete-HasDistinctIps s c h),
    )
