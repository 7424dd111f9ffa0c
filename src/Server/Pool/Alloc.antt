-- ===== src/Server/Pool/Alloc.antt =====
-- allocateIP of internal/server/server.go: the address is free and of the subnet, the search misses
-- none, and no two clients of the pool share one.
use mpfpv.Prelude.{
  ℕ, zero, suc, ◌+◌, ◌-◌, ◌≤◌, ◌<◌, ◌≡◌, ◌≢◌, sym, ◌∙◌, ap, arith, List, [], ◌∷◌, true, false,
  Option, none, some, ◌==◌, ==_refl, nat_eq, Bool-cases, Option-cases, inl, inr,
}
use mpfpv.Prelude.Map.{Map, lookup, insert, lookup-insert}
use mpfpv.Prelude.Words.{u32}
use mpfpv.Server.State.{Server, Subnet}
use mpfpv.Server.Pool.{
  member, values, find_free, used_ips, max_hosts, take_free, allocate_ip, set_name, allocate_pooled,
  allocate_new,
}

-- The address that is `offset` hosts into the subnet.
abbrev pub host : Subnet → ℕ → ℕ
host subnet offset = u32 (subnet.base + offset)

-- The lowest free offset: it is free, and the ones before it are not.
pub record IsLowestFree (used : List ℕ) (base first limit ip : ℕ) : Type 0 where
  pub offset : ℕ
  pub from_first : first ≤ offset
  pub below_limit : offset < limit
  pub is_host : ip ≡ u32 (base + offset)
  pub is_free : member ip used ≡ false
  pub is_lowest : (k : ℕ) → first ≤ k → k < offset → member (u32 (base + k)) used ≡ true

find_free-some :
    (used : List ℕ) (base first n ip : ℕ)
    → find_free used base first n ≡ some ip
    → IsLowestFree used base first (first + n) ip
unfolding find_free
find_free-some used base first zero ip e = absurd cc
find_free-some used base first (suc n) ip e = elim (Bool-cases (member (u32 (base + first)) used)) [
  | inl taken ↦
      let r = find_free-some used base (first + 1) n ip (ground (arith, e)) in
      record {
        offset = r.offset;
        from_first = omega (arith, r.from_first);
        below_limit = omega (arith, r.below_limit);
        is_host = r.is_host;
        is_free = r.is_free;
        is_lowest = λ k p q. elim (Bool-cases (k == first)) [
          | inl here ↦ let same : k ≡ first = ground arith in rw same taken
          | inr later ↦ r.is_lowest k (ground arith) q
        ];
      }
  | inr free ↦ record {
    offset = first;
    from_first = omega arith;
    below_limit = omega arith;
    is_host = ground (arith, e);
    is_free = ground (arith, e);
    is_lowest = λ k p q. absurd (omega arith);
  }
]

find_free-none :
    (used : List ℕ) (base first n : ℕ)
    → find_free used base first n ≡ none
    → (k : ℕ) → first ≤ k
    → k < first + n
    → member (u32 (base + k)) used ≡ true
unfolding find_free
find_free-none used base first zero e k p q = absurd (omega arith)
find_free-none used base first (suc n) e k p q =
    elim (Bool-cases (member (u32 (base + first)) used)) [
      | inl taken ↦ elim (Bool-cases (k == first)) [
        | inl here ↦ let same : k ≡ first = ground arith in rw same taken
        | inr later ↦
            find_free-none used base (first + 1) n (ground (arith, e)) k (ground arith)
              (omega arith)
      ]
      | inr free ↦ absurd (ground (arith, e))
    ]

member-values : (m : Map ℕ ℕ) (c ip : ℕ) → lookup c m ≡ some ip → member ip (values m) ≡ true
unfolding lookup values member
member-values [] c ip e = absurd cc
member-values ((k, v) ∷ m) c ip e = ground (arith, ==_refl v, member-values m c ip)

-- No two clients share an address, and none has the server's.
pub record AreDistinct (own : ℕ) (pool : Map ℕ ℕ) : Type 0 where
  pub distinct : (a b ip : ℕ) → lookup a pool ≡ some ip → lookup b pool ≡ some ip → a ≡ b
  pub not_server : (a : ℕ) → lookup a pool ≢ some own

abbrev pub HasDistinctIps : Server → Type 0
HasDistinctIps s = AreDistinct s.server_virtual_ip s.ip_pool

pub insert-HasDistinctIps :
    (s : Server) (c ip : ℕ)
    → HasDistinctIps s
    → ip ≢ s.server_virtual_ip
    → ((a : ℕ) → lookup a s.ip_pool ≡ some ip → a ≡ c)
    → HasDistinctIps (record s { ip_pool = insert c ip s.ip_pool })
insert-HasDistinctIps s c ip h own others = record {
  distinct = λ a b v p q. ground (
    arith,
    lookup-insert c a ip s.ip_pool,
    lookup-insert c b ip s.ip_pool,
    h.distinct a b v,
    others a,
    others b,
    p,
    q,
  );
  not_server = λ a p. ground (arith, lookup-insert c a ip s.ip_pool, h.not_server a, p, own);
}

pub allocate_ip_pooled :
    (s : Server) (c : ℕ) (name : List ℕ) (o : Option ℕ)
    → lookup c s.ip_pool ≡ o
    → allocate_ip s c name ≡ allocate_pooled (set_name s c name) c name o
unfolding allocate_ip
allocate_ip_pooled s c name o e = ap (allocate_pooled (set_name s c name) c name) e

allocate_ip-take_free :
    (s : Server) (c : ℕ) (name : List ℕ) (subnet : Subnet)
    → lookup c s.ip_pool ≡ none
    → s.subnet ≡ some subnet
    → allocate_ip s c name ≡ take_free (set_name s c name) c subnet
allocate_ip-take_free s c name subnet new has =
    allocate_ip_pooled s c name none new ∙ ap (allocate_new (set_name s c name) c) has

take_free-some :
    (s : Server) (c : ℕ) (subnet : Subnet) (ip p : ℕ)
    → (take_free s c subnet).1 ≡ some (ip, p)
    → IsLowestFree (used_ips s) subnet.base 1 (1 + (max_hosts subnet - 1)) ip
      × (lookup c (take_free s c subnet).0.0.ip_pool ≡ some ip)
      × (p ≡ s.prefix_len)
      × ((take_free s c subnet).0.0.prefix_len ≡ p)
unfolding take_free
take_free-some s c subnet ip p e =
    elim (Option-cases (find_free (used_ips s) subnet.base 1 (max_hosts subnet - 1))) [
      | inl full ↦ absurd (ground (arith, e, full))
      | inr (found, f) ↦
          let same : found ≡ ip = ground (arith, e, f) in
          (
            find_free-some _ _ _ _ ip (f ∙ ap some same),
            rw (f, take_free) (rw (lookup-insert c c found s.ip_pool, ==_refl c) (ap some same)),
            ground (arith, e, f),
            ground (arith, e, f),
          )
    ]

-- A client that is not in the pool and gets an address gets the lowest host of the subnet, from
-- offset 1 to below the broadcast offset, that neither the pool nor the server uses, with the
-- server's prefix length, and the address is in the pool under the client.
pub allocate_ip_new :
    (s : Server) (c : ℕ) (name : List ℕ) (subnet : Subnet) (ip p : ℕ)
    → lookup c s.ip_pool ≡ none
    → s.subnet ≡ some subnet
    → (allocate_ip s c name).1 ≡ some (ip, p)
    → IsLowestFree (used_ips s) subnet.base 1 (1 + (max_hosts subnet - 1)) ip
      × (lookup c (allocate_ip s c name).0.0.ip_pool ≡ some ip)
      × (p ≡ s.prefix_len)
unfolding take_free
allocate_ip_new s c name subnet ip p new has e =
    let same = allocate_ip-take_free s c name subnet new has in
    let r = take_free-some (set_name s c name) c subnet ip p (rw (sym same) e) in
    (r.0, rw same r.1, r.2)

-- If a server with a subnet gives a client no address, every host from offset 1 to below the
-- broadcast offset is in use.
allocate_ip_full :
    (s : Server) (c : ℕ) (name : List ℕ) (subnet : Subnet)
    → s.subnet ≡ some subnet
    → (allocate_ip s c name).1 ≡ none
    → (k : ℕ) → 1 ≤ k
    → k < 1 + (max_hosts subnet - 1)
    → member (host subnet k) (used_ips s) ≡ true
unfolding take_free
allocate_ip_full s c name subnet has e = elim (Option-cases (lookup c s.ip_pool)) [
  | inr (ip, pooled) ↦ absurd (cc (e, ap (λ r. r.1) (allocate_ip_pooled s c name (some ip) pooled)))
  | inl new ↦ elim (Option-cases (find_free (used_ips s) subnet.base 1 (max_hosts subnet - 1))) [
    | inl full ↦ find_free-none (used_ips s) subnet.base 1 (max_hosts subnet - 1) full
    | inr (ip, f) ↦
        absurd (ground (arith, e, ap (λ r. r.1) (allocate_ip-take_free s c name subnet new has), f))
  ]
]

allocate_ip-some :
    (s : Server) (c : ℕ) (name : List ℕ) (ip p : ℕ)
    → (allocate_ip s c name).1 ≡ some (ip, p)
    → (lookup c (allocate_ip s c name).0.0.ip_pool ≡ some ip)
      × ((allocate_ip s c name).0.0.prefix_len ≡ p)
allocate_ip-some s c name ip p e = elim (Option-cases (lookup c s.ip_pool)) [
  | inr (ip', pooled) ↦
      let step = allocate_ip_pooled s c name (some ip') pooled in
      let found : some (ip', s.prefix_len) ≡ some (ip, p) = sym (ap (λ r. r.1) step) ∙ e in
      rw step (rw pooled (ground (arith, found)))
  | inl new ↦ elim (Option-cases s.subnet) [
    | inl absent ↦
        let step =
          allocate_ip_pooled s c name none new ∙ ap (allocate_new (set_name s c name) c) absent in
        absurd (cc (sym (ap (λ r. r.1) step) ∙ e))
    | inr (subnet, has) ↦
        let step = allocate_ip-take_free s c name subnet new has in
        let r = take_free-some (set_name s c name) c subnet ip p (rw (sym step) e) in
        rw step (r.1, r.3)
  ]
]

-- A client that got an address gets the same one when it asks again, under any device name.
allocate_ip_again :
    (s : Server) (c : ℕ) (name name' : List ℕ) (ip p : ℕ)
    → (allocate_ip s c name).1 ≡ some (ip, p)
    → (allocate_ip (allocate_ip s c name).0.0 c name').1 ≡ some (ip, p)
allocate_ip_again s c name name' ip p e =
    let (pooled, prefix) = allocate_ip-some s c name ip p e in
    ap (λ r. r.1) (allocate_ip_pooled _ c name' (some ip) pooled) ∙ ap (λ q. some (ip, q)) prefix

not_in_cons : (x y : ℕ) (ys : List ℕ) → member x (y ∷ ys) ≡ false → (x ≢ y) × (member x ys ≡ false)
unfolding member
not_in_cons x y ys h = (λ e. ground (arith, h), ground (arith, h))

take_free-HasDistinctIps :
    (s : Server) (c : ℕ) (subnet : Subnet)
    → HasDistinctIps s
    → HasDistinctIps (take_free s c subnet).0.0
unfolding take_free
take_free-HasDistinctIps s c subnet h =
    elim (Option-cases (find_free (used_ips s) subnet.base 1 (max_hosts subnet - 1))) [
      | inl full ↦ rw (full, take_free) h
      | inr (ip, f) ↦
          let free : member ip (used_ips s) ≡ false = (find_free-some _ _ _ _ ip f).is_free in
          rw (f, take_free)
            (insert-HasDistinctIps s c ip h (not_in_cons _ _ _ free).0
              (λ a e. absurd (cc (member-values s.ip_pool a ip e, (not_in_cons _ _ _ free).1))))
    ]

-- Allocation keeps the invariant that no two clients of the pool have the same address and none
-- has the server's.
pub allocate_ip-HasDistinctIps :
    (s : Server) (c : ℕ) (name : List ℕ)
    → HasDistinctIps s
    → HasDistinctIps (allocate_ip s c name).0.0
unfolding take_free
allocate_ip-HasDistinctIps s c name h = elim (Option-cases (lookup c s.ip_pool)) [
  | inr (ip, pooled) ↦ rw (allocate_ip_pooled s c name (some ip) pooled) h
  | inl new ↦ elim (Option-cases s.subnet) [
    | inl absent ↦
        rw (allocate_ip_pooled s c name none new ∙ ap (allocate_new (set_name s c name) c) absent) h
    | inr (subnet, has) ↦
        rw (allocate_ip-take_free s c name subnet new has)
          (take_free-HasDistinctIps (set_name s c name) c subnet h)
  ]
]
