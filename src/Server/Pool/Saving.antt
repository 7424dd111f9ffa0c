-- ===== src/Server/Pool/Saving.antt =====
-- saveIPPool and loadIPPool of internal/server/server.go: the pool's file. The JSON of the entries is a
-- parameter; the files are a map.
use mpfpv.Prelude.{
  ℕ, ◌≡◌, refl, ap, ◌∙◌, arith, List, [], ◌∷◌, Bool, true, false, Option, none, some, ◌==◌,
  if◌then◌else◌, nat_eq, bytes_eq, Option-cases, inl, inr, if_true, if_false,
}
use mpfpv.Prelude.Map.{Map, lookup, insert, lookup-insert, HasDistinctKeys, beq_refl}
use mpfpv.Config.{is_empty}
use mpfpv.Server.State.{Server}
use mpfpv.Server.Pool.Alloc.{allocate_ip_pooled}
use mpfpv.Server.Pool.{is_named, allocate_ip}

-- An entry of the file: the address is what net.ParseIP and To4 make of its text.
pub record IpPoolEntry : Type 0 where
  pub client_id : ℕ
  pub ip : Option ℕ
  pub name : List ℕ

abbrev pub added : IpPoolEntry → Server → Option ℕ → Server
added e s none = s
added e s (some ip) = record s {
  ip_pool = insert e.client_id ip s.ip_pool;
  ip_pool_names =
      if is_named e.name then insert e.client_id e.name s.ip_pool_names else s.ip_pool_names;
}

abbrev add_entry : IpPoolEntry → Server → Server
add_entry e s = added e s e.ip

unfoldable pub load_ip_pool : List IpPoolEntry → Server → Server
load_ip_pool [] s = s
load_ip_pool (e ∷ entries) s = load_ip_pool entries (add_entry e s)

-- A name that may be missing.
abbrev pub name_of : ℕ → Map ℕ (List ℕ) → List ℕ
name_of id names = elim (lookup id names) [ none ↦ [] | some name ↦ name ]

-- What is saved of a client. The address's text reads back as the address.
abbrev pool_entry : Map ℕ (List ℕ) → ℕ → ℕ → IpPoolEntry
pool_entry names id ip = record { client_id = id; ip = some ip; name = name_of id names }

unfoldable pub pool_entries : Map ℕ (List ℕ) → Map ℕ ℕ → List IpPoolEntry
pool_entries names [] = []
pool_entries names ((id, ip) ∷ rest) = pool_entry names id ip ∷ pool_entries names rest

abbrev Files : Type 0
Files = Map (List ℕ) (List ℕ)

abbrev stored : Bool → List ℕ → Files → Option (List ℕ) → Files
stored can_write path files none = files
stored can_write path files (some text) = if can_write then insert path text files else files

-- An error is only logged.
unfoldable pub save_ip_pool :
    (List IpPoolEntry → Option (List ℕ)) → Bool → List ℕ → Files → Server → Files
save_ip_pool marshal can_write path files s =
    if is_empty path
    then files
    else stored can_write path files (marshal (pool_entries s.ip_pool_names s.ip_pool))

abbrev loaded : Server → Option (List IpPoolEntry) → Server
loaded s none = s
loaded s (some entries) = load_ip_pool entries s

-- A file that cannot be read or parsed leaves the pool as it is.
unfoldable pub load_ip_pool_file :
    (List ℕ → Option (List IpPoolEntry)) → List ℕ → Files → Server → Server
load_ip_pool_file unmarshal path files s =
    if is_empty path
    then s
    else elim (lookup path files) [ none ↦ s | some text ↦ loaded s (unmarshal text) ]

abbrev or_else {ℓ} : {A : Type ℓ} → Option A → Option A → Option A
or_else none o = o
or_else (some a) o = some a

or_else-none : (d : ℕ) (m : Map ℕ ℕ) → or_else (lookup d m) none ≡ lookup d m
or_else-none d m = ground arith

-- What the entries add to the pool.
lookup-load_ip_pool :
    (c : ℕ) (names : Map ℕ (List ℕ)) (pool : Map ℕ ℕ) (t : Server)
    → HasDistinctKeys pool
    → lookup c (load_ip_pool (pool_entries names pool) t).ip_pool
      ≡ or_else (lookup c pool) (lookup c t.ip_pool)
unfolding load_ip_pool pool_entries lookup
lookup-load_ip_pool c names [] t distinct = refl
lookup-load_ip_pool c names ((k, ip) ∷ rest) t (new, distinct) =
    lookup-load_ip_pool c names rest (add_entry (pool_entry names k ip) t) distinct
    ∙ ground (arith, lookup-insert k c ip t.ip_pool)

-- A name that is not empty replaces the old one.
abbrev named : List ℕ → List ℕ → List ℕ
named name old = if is_named name then name else old

name_of-insert :
    (c k : ℕ) (name : List ℕ) (m : Map ℕ (List ℕ))
    → name_of c (if is_named name then insert k name m else m)
      ≡ (if k == c then named name (name_of c m) else name_of c m)
name_of-insert c k [] m = ground arith
name_of-insert c k (x ∷ xs) m = ground (arith, lookup-insert k c (x ∷ xs) m)

abbrev restored : Option ℕ → List ℕ → List ℕ → List ℕ
restored none name old = old
restored (some ip) name old = named name old

-- The names of its clients too.
name_of-load_ip_pool :
    (c : ℕ) (names : Map ℕ (List ℕ)) (pool : Map ℕ ℕ) (t : Server)
    → HasDistinctKeys pool
    → name_of c (load_ip_pool (pool_entries names pool) t).ip_pool_names
      ≡ restored (lookup c pool) (name_of c names) (name_of c t.ip_pool_names)
unfolding load_ip_pool pool_entries lookup
name_of-load_ip_pool c names [] t distinct = refl
name_of-load_ip_pool c names ((k, ip) ∷ rest) t (new, distinct) =
    name_of-load_ip_pool c names rest (add_entry (pool_entry names k ip) t) distinct
    ∙ ground (arith, name_of-insert c k (name_of k names) t.ip_pool_names)

named_nil : (name : List ℕ) → named name [] ≡ name
named_nil [] = refl
named_nil (x ∷ xs) = refl

load_ip_pool-prefix_len :
    (entries : List IpPoolEntry) (t : Server) → (load_ip_pool entries t).prefix_len ≡ t.prefix_len
unfolding load_ip_pool
load_ip_pool-prefix_len [] t = refl
load_ip_pool-prefix_len (e ∷ entries) t =
    load_ip_pool-prefix_len entries (add_entry e t) ∙ elim (Option-cases e.ip) [
      | inl bad ↦ ap (λ o. (added e t o).prefix_len) bad
      | inr (ip, good) ↦ ap (λ o. (added e t o).prefix_len) good
    ]

module _ (marshal : List IpPoolEntry → Option (List ℕ))
    (unmarshal : List ℕ → Option (List IpPoolEntry)) (path text : List ℕ) where
  -- The entries are stored and read back.
  restart :
      (files : Files) (s t : Server)
      → is_empty path ≡ false
      → marshal (pool_entries s.ip_pool_names s.ip_pool) ≡ some text
      → unmarshal text ≡ some (pool_entries s.ip_pool_names s.ip_pool)
      → load_ip_pool_file unmarshal path (save_ip_pool marshal true path files s) t
        ≡ load_ip_pool (pool_entries s.ip_pool_names s.ip_pool) t
  unfolding load_ip_pool_file save_ip_pool
  restart files s t given written' read =
      let saved' : save_ip_pool marshal true path files s ≡ insert path text files =
        if_false (is_empty path) _ _ given ∙ ap (stored true path files) written' in
      let found : lookup path (save_ip_pool marshal true path files s) ≡ some text =
        ap (lookup path) saved'
        ∙ lookup-insert path path text files
        ∙ if_true _ _ _ (beq_refl path) in
      if_false (is_empty path) _ _ given
      ∙ ap (λ (o : Option (List ℕ)). elim o [ none ↦ t | some x ↦ loaded t (unmarshal x) ]) found
      ∙ ap (loaded t) read

  -- A client with an address in the pool gets the same address after a restart of the server,
  -- whatever name it gives, and keeps its name, and every client has the address that it had: the
  -- pool was saved to a file and loaded into a server with an empty one. The JSON of the entries
  -- is written as some text and read back from it, and the file can be written.
  pub load_ip_pool_file-save_ip_pool :
      (files : Files) (s t : Server) (c ip : ℕ) (name : List ℕ)
      → is_empty path ≡ false
      → HasDistinctKeys s.ip_pool
      → marshal (pool_entries s.ip_pool_names s.ip_pool) ≡ some text
      → unmarshal text ≡ some (pool_entries s.ip_pool_names s.ip_pool)
      → t.ip_pool ≡ []
      → t.ip_pool_names ≡ []
      → lookup c s.ip_pool ≡ some ip
      → let t' = load_ip_pool_file unmarshal path (save_ip_pool marshal true path files s) t in
        ((allocate_ip t' c name).1 ≡ some (ip, t.prefix_len))
        × (name_of c t'.ip_pool_names ≡ name_of c s.ip_pool_names)
        × ((d : ℕ) → lookup d t'.ip_pool ≡ lookup d s.ip_pool)
  unfolding lookup
  load_ip_pool_file-save_ip_pool files s t c ip name given distinct written' read fresh unnamed
        known =
      let entries = pool_entries s.ip_pool_names s.ip_pool in
      let e = restart files s t given written' read in
      let same : (d : ℕ) → lookup d (load_ip_pool entries t).ip_pool ≡ lookup d s.ip_pool = λ d.
        lookup-load_ip_pool d s.ip_pool_names s.ip_pool t distinct
        ∙ ap (λ (m : Map ℕ ℕ). or_else (lookup d s.ip_pool) (lookup d m)) fresh
        ∙ or_else-none d s.ip_pool in
      (
        ap (λ (u : Server). (allocate_ip u c name).1) e
            ∙ ap (λ r. r.1)
                (allocate_ip_pooled (load_ip_pool entries t) c name (some ip) (same c ∙ known))
            ∙ ap (λ p. some (ip, p)) (load_ip_pool-prefix_len entries t),
        ap (λ (u : Server). name_of c u.ip_pool_names) e
            ∙ name_of-load_ip_pool c s.ip_pool_names s.ip_pool t distinct
            ∙ ap
                (λ (o : Option ℕ).
                  restored o (name_of c s.ip_pool_names) (name_of c t.ip_pool_names))
                known
            ∙ ap (λ (m : Map ℕ (List ℕ)). named (name_of c s.ip_pool_names) (name_of c m)) unnamed
            ∙ named_nil (name_of c s.ip_pool_names),
        λ d. ap (λ (u : Server). lookup d u.ip_pool) e ∙ same d,
      )
