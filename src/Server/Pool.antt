-- ===== src/Server/Pool.antt =====
-- allocateIP of internal/server/server.go: the pool of virtual addresses.
pub mod Alloc
pub mod Saving
use mpfpv.Prelude.{
  ℕ, zero, suc, ◌+◌, ◌-◌, ◌^◌, List, [], ◌∷◌, Bool, true, false, not, Option, none, some, ◌==◌,
  ◌||◌, if◌then◌else◌, nat_eq, bytes_beq,
}
use mpfpv.Prelude.Map.{Map, lookup, insert}
use mpfpv.Prelude.Words.{u32}
use mpfpv.Server.State.{Server, Subnet, Effect, save_pool}

abbrev pub is_named : List ℕ → Bool
is_named [] = false
is_named (c ∷ cs) = true

unfoldable pub member : ℕ → List ℕ → Bool
member x [] = false
member x (y ∷ ys) = y == x || member x ys

unfoldable pub values : Map ℕ ℕ → List ℕ
values [] = []
values ((k, v) ∷ m) = v ∷ values m

-- (uint32(1) << hostBits) - 1
abbrev pub max_hosts : Subnet → ℕ
max_hosts subnet = u32 (u32 (2 ^ (32 - subnet.ones)) + 2 ^ 32 - 1)

-- The loop over the offsets: from `offset`, with `n` of them left.
unfoldable pub find_free : List ℕ → ℕ → ℕ → ℕ → Option ℕ
find_free used base offset zero = none
find_free used base offset (suc n) =
    let rest = find_free used base (offset + 1) n in
    if member (u32 (base + offset)) used then rest else some (u32 (base + offset))

-- The addresses in use: those of the pool, and the server's own.
abbrev pub used_ips : Server → List ℕ
used_ips s = s.server_virtual_ip ∷ values s.ip_pool

abbrev pub set_name : Server → ℕ → List ℕ → Server
set_name s client_id name = record s {
  ip_pool_names = if is_named name then insert client_id name s.ip_pool_names else s.ip_pool_names;
}

abbrev saved : Server → Effect
saved s = save_pool s.ip_pool s.ip_pool_names

-- The state, what was saved, and the address with its prefix length if there is one. A subnet of IPv6,
-- for which the code panics here, is not one that the state holds.
unfoldable pub take_free : Server → ℕ → Subnet → (Server × List Effect) × Option (ℕ × ℕ)
take_free s client_id subnet = elim (find_free (used_ips s) subnet.base 1 (max_hosts subnet - 1)) [
  | none ↦ ((s, []), none)
  | some ip ↦
      let s' : Server = record s { ip_pool = insert client_id ip s.ip_pool } in
      ((s', saved s' ∷ []), some (ip, s.prefix_len))
]

abbrev pub allocate_new : Server → ℕ → Option Subnet → (Server × List Effect) × Option (ℕ × ℕ)
allocate_new s client_id none = ((s, []), none)
allocate_new s client_id (some subnet) = take_free s client_id subnet

abbrev pub allocate_pooled :
    Server → ℕ → List ℕ → Option ℕ → (Server × List Effect) × Option (ℕ × ℕ)
allocate_pooled s client_id name (some ip) =
    ((s, if is_named name then saved s ∷ [] else []), some (ip, s.prefix_len))
allocate_pooled s client_id name none = allocate_new s client_id s.subnet

unfoldable pub allocate_ip : Server → ℕ → List ℕ → (Server × List Effect) × Option (ℕ × ℕ)
allocate_ip s client_id name =
    let s' = set_name s client_id name in
    allocate_pooled s' client_id name (lookup client_id s'.ip_pool)
