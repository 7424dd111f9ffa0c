-- ===== src/Server/Cleanup/Expiry.antt =====
-- cleanup of internal/server/server.go: what it keeps and what it forgets.
use mpfpv.Prelude.{
  ◌&&◌, ◌||◌, ℕ, ◌+◌, ◌≤◌, ◌≡◌, refl, sym, leb, ◌∙◌, ap, arith, List, [], ◌∷◌, Bool, true, false,
  Option, none, some, ◌==◌, ==_refl, ==_iff, if◌then◌else◌, nat_eq, Bool-cases, inl, inr,
}
use mpfpv.Prelude.Map.{Map, HasDistinctKeys, lookup, delete, lookup-delete}
use mpfpv.Protocol.Dedup.{reset}
use mpfpv.Server.State.{Addr, addr_eq, AddrInfo, ClientSession, Server}
use mpfpv.Server.Cleanup.{
  drop_expired, prune, is_gone, keep_sessions, expired_sessions, forget, cleanup,
}

-- The addresses that were seen within the timeout, in their order.
abbrev pub recent : ℕ → ℕ → Map Addr AddrInfo → Map Addr AddrInfo
recent now timeout [] = []
recent now timeout ((key, ai) ∷ addrs) =
    let more = recent now timeout addrs in
    if leb now (ai.last_seen + timeout) then (key, ai) ∷ more else more

-- A session that keeps these addresses: without any, it stays only if it was seen within the timeout.
abbrev pub kept_with : ℕ → ℕ → ClientSession → Map Addr AddrInfo → Option ClientSession
kept_with now timeout session [] =
    if leb now (session.last_seen + timeout) then some (record session { addrs = [] }) else none
kept_with now timeout session (a ∷ addrs) = some (record session { addrs = a ∷ addrs })

-- What is left of a session.
abbrev pub survivor : ℕ → ℕ → ℕ → Option ClientSession → Option ClientSession
survivor now addr_timeout client_timeout none = none
survivor now addr_timeout client_timeout (some session) =
    kept_with now client_timeout session (recent now addr_timeout session.addrs)

drop_expired-recent :
    (now timeout : ℕ) (addrs : Map Addr AddrInfo)
    → drop_expired now timeout addrs ≡ recent now timeout addrs
unfolding drop_expired
drop_expired-recent now timeout [] = refl
drop_expired-recent now timeout ((k, ai) ∷ addrs) =
    ground (arith, drop_expired-recent now timeout addrs)

kept_lem :
    (now timeout : ℕ) (session : ClientSession) (addrs : Map Addr AddrInfo)
    → (if is_gone now timeout (record session { addrs = addrs })
        then none
        else some (record session { addrs = addrs }))
      ≡ kept_with now timeout session addrs
kept_lem now timeout session [] = ground arith
kept_lem now timeout session (a ∷ addrs) = refl

survivor_lem :
    (now at ct : ℕ) (session : ClientSession)
    → (if is_gone now ct (prune now at session) then none else some (prune now at session))
      ≡ survivor now at ct (some session)
survivor_lem now at ct session =
    rw (drop_expired-recent now at session.addrs)
      (kept_lem now ct session (recent now at session.addrs))

lookup-keep_sessions :
    (now at ct c : ℕ) (m : Map ℕ ClientSession)
    → HasDistinctKeys m
    → lookup c (keep_sessions now at ct m) ≡ survivor now at ct (lookup c m)
unfolding keep_sessions lookup
lookup-keep_sessions now at ct c [] keys = refl
lookup-keep_sessions now at ct c ((k, session) ∷ m) keys =
    let left = survivor_lem now at ct session in
    elim (Bool-cases (is_gone now ct (prune now at session))) [
      | inl gone ↦ elim (Bool-cases (k == c)) [
        | inl hit ↦
            rw (gone, hit)
              (lookup-keep_sessions now at ct c m keys.1
                ∙ ap (survivor now at ct) (ap (λ j. lookup j m) (sym ((==_iff k c).0 hit)) ∙ keys.0)
                ∙ sym (rw gone refl)
                ∙ left)
        | inr miss ↦ rw (gone, miss) (lookup-keep_sessions now at ct c m keys.1)
      ]
      | inr stays ↦ elim (Bool-cases (k == c)) [
        | inl hit ↦ rw (stays, hit) (sym (rw stays refl) ∙ left)
        | inr miss ↦ rw (stays, miss) (lookup-keep_sessions now at ct c m keys.1)
      ]
    ]

sessions-forget : (gone : List (ℕ × ℕ)) (s : Server) → (forget s gone).sessions ≡ s.sessions
unfolding forget
sessions-forget [] s = refl
sessions-forget ((c, ip) ∷ gone) s = sessions-forget gone _

-- After a cleanup of sessions with distinct keys, a client has a session exactly if it had one
-- that kept an address or has not timed out, and that session has lost its expired addresses and
-- nothing else.
pub lookup-cleanup :
    (now c : ℕ) (s : Server)
    → HasDistinctKeys s.sessions
    → lookup c (cleanup now s).sessions
      ≡ survivor now s.addr_timeout s.client_timeout (lookup c s.sessions)
unfolding cleanup
lookup-cleanup now c s keys =
    ap (lookup c) (sessions-forget _ _)
    ∙ lookup-keep_sessions now s.addr_timeout s.client_timeout c s.sessions keys

-- An address that is left after the removal of the expired ones was seen within the timeout.
lookup-drop_expired :
    (now timeout : ℕ) (from : Addr) (addrs : Map Addr AddrInfo) (ai : AddrInfo)
    → lookup from (drop_expired now timeout addrs) ≡ some ai
    → now ≤ ai.last_seen + timeout
unfolding drop_expired lookup
lookup-drop_expired now timeout from [] ai e = absurd cc
lookup-drop_expired now timeout from ((k, a) ∷ addrs) ai e =
    ground (arith, e, lookup-drop_expired now timeout from addrs ai)

listed : ℕ → ℕ → List (ℕ × ℕ) → Bool
listed c ip [] = false
listed c ip ((k, v) ∷ rest) = k == c && v == ip || listed c ip rest

listed-expired_sessions :
    (now at ct c : ℕ) (m : Map ℕ ClientSession) (session : ClientSession)
    → lookup c m ≡ some session
    → is_gone now ct (prune now at session) ≡ true
    → listed c session.virtual_ip (expired_sessions now at ct m) ≡ true
unfolding expired_sessions lookup listed
listed-expired_sessions now at ct c [] session e gone = absurd cc
listed-expired_sessions now at ct c ((k, x) ∷ m) session e gone = elim (Bool-cases (k == c)) [
  | inl hit ↦
      let same : x ≡ session = ground (arith, e, hit) in
      rw (same, gone) (ground (arith, hit, ==_refl session.virtual_ip))
  | inr miss ↦
      ground
        (arith, miss, listed-expired_sessions now at ct c m session (ground (arith, e, miss)) gone)
]

-- Routes and packet numbers that are forgotten stay so.
forget_keeps :
    (gone : List (ℕ × ℕ)) (s : Server) (c ip : ℕ)
    → ((lookup ip s.route_table ≡ none) → lookup ip (forget s gone).route_table ≡ none)
      × ((lookup c s.dedup.clients ≡ none) → lookup c (forget s gone).dedup.clients ≡ none)
unfolding forget reset
forget_keeps [] s c ip = (λ h. h, λ h. h)
forget_keeps ((k, v) ∷ gone) s c ip =
    let s' : Server = record s { route_table = delete v s.route_table; dedup = reset s.dedup k } in
    let (routes, clients) = forget_keeps gone s' c ip in
    (
      λ h. routes (ground (arith, lookup-delete v ip s.route_table, h)),
      λ h. clients (ground (arith, lookup-delete k c s.dedup.clients, h)),
    )

forget-listed :
    (gone : List (ℕ × ℕ)) (s : Server) (c ip : ℕ)
    → listed c ip gone ≡ true
    → (lookup ip (forget s gone).route_table ≡ none)
      × (lookup c (forget s gone).dedup.clients ≡ none)
unfolding forget listed reset
forget-listed [] s c ip h = absurd cc
forget-listed ((k, v) ∷ gone) s c ip h =
    let s' : Server = record s { route_table = delete v s.route_table; dedup = reset s.dedup k } in
    let (routes, clients) = forget_keeps gone s' c ip in
    elim (Bool-cases (k == c && v == ip)) [
      | inl hit ↦ (
        routes (ground (arith, lookup-delete v ip s.route_table, hit)),
        clients (ground (arith, lookup-delete k c s.dedup.clients, hit)),
      )
      | inr miss ↦ forget-listed gone s' c ip (ground (arith, h, miss))
    ]

-- A client whose session has timed out and keeps no address has, after a cleanup of sessions with
-- distinct keys, no session, no route to its address and no packet numbers in the deduplicator.
cleanup_gone :
    (now c : ℕ) (s : Server) (session : ClientSession)
    → HasDistinctKeys s.sessions
    → lookup c s.sessions ≡ some session
    → is_gone now s.client_timeout (prune now s.addr_timeout session) ≡ true
    → (lookup c (cleanup now s).sessions ≡ none)
      × (lookup session.virtual_ip (cleanup now s).route_table ≡ none)
      × (lookup c (cleanup now s).dedup.clients ≡ none)
unfolding cleanup
cleanup_gone now c s session keys e gone =
    let (routes, clients) =
      forget-listed _
        (record s { sessions = keep_sessions now s.addr_timeout s.client_timeout s.sessions }) c
        session.virtual_ip
        (listed-expired_sessions now s.addr_timeout s.client_timeout c s.sessions session e gone) in
    (
      lookup-cleanup now c s keys
          ∙ rw e (sym (survivor_lem now s.addr_timeout s.client_timeout session) ∙ rw gone refl),
      routes,
      clients,
    )
