-- ===== src/Tests/Pool.antt =====
-- Runs of the address pool, and of the API that changes it.
use mpfpv.Prelude.{List, Option, ℕ, ◌+◌, ◌-◌, ◌≡◌, refl, arith, [], ◌∷◌, true, none, some, nat_eq}
use mpfpv.Prelude.Int.{pos}
use mpfpv.Prelude.Map.{HasDistinctKeys, lookup, insert, delete}
use mpfpv.Prelude.Outcome.{ok}
use mpfpv.Protocol.Dedup.{new_deduplicator}
use mpfpv.Server.State.{Server, Subnet, save_pool}
use mpfpv.Server.Pool.{member, find_free, values, used_ips, max_hosts, allocate_ip, take_free}
use mpfpv.Server.Pool.Saving.{
  IpPoolEntry, pool_entries, name_of, save_ip_pool, load_ip_pool_file,
  load_ip_pool_file-save_ip_pool,
}
use mpfpv.Server.Pool.Alloc.{
  IsLowestFree, HasDistinctIps, allocate_ip_new, allocate_ip-HasDistinctIps,
}
use mpfpv.Server.Admin.{
  update_device_ip, assign_device, move_device, assigned_to_other, delete_device, contains,
  notify_all,
}
use mpfpv.Server.Admin.Uniqueness.{update_device_ip_ok}

-- 10.99.0.0
abbrev base : ℕ
base = 174260224

abbrev pub relay : Server
relay = record {
  sessions = [];
  route_table = (base + 2, 7) ∷ [];
  dedup = new_deduplicator (pos 64);
  team_key_hash = 1 ∷ 2 ∷ 3 ∷ 4 ∷ 5 ∷ 6 ∷ 7 ∷ 8 ∷ [];
  seq = 5;
  total_rx = 0;
  total_tx = 0;
  client_timeout = 15;
  addr_timeout = 15;
  server_virtual_ip = base + 1;
  tun_available = true;
  prefix_len = 24;
  mtu = 1300;
  ip_pool = (7, base + 2) ∷ [];
  ip_pool_names = [];
  subnet = some (record { base = base; ones = 30 });
}

abbrev lan : Subnet
lan = record { base = base; ones = 30 }

relay-HasDistinctIps : HasDistinctIps relay
unfolding lookup
relay-HasDistinctIps = record {
  distinct = λ a b ip p q. ground (arith, p, q);
  not_server = λ a p. ground (arith, p);
}

-- A /30 has the hosts 1 and 2, which the server and a client have: the third client gets none.
full : (allocate_ip relay 8 []).1 ≡ none
unfolding allocate_ip take_free find_free member values lookup
full = refl

abbrev wide : Server
wide = record relay { subnet = some (record { base = base; ones = 24 }) }

allocated : (allocate_ip wide 8 []).1 ≡ some (base + 3, 24)
unfolding allocate_ip take_free find_free member values lookup
allocated = refl

allocate_ip_new_example :
    IsLowestFree
      (used_ips wide)
      base
      1
      (1 + (max_hosts (record { base = base; ones = 24 }) - 1))
      (base + 3)
    × (lookup 8 (allocate_ip wide 8 []).0.0.ip_pool ≡ some (base + 3))
    × ◌≡◌ {A = ℕ} 24 wide.prefix_len
allocate_ip_new_example =
    allocate_ip_new wide 8 [] (record { base = base; ones = 24 }) (base + 3) 24
      (unfold lookup in refl) refl allocated

allocate_ip-HasDistinctIps_example : HasDistinctIps (allocate_ip wide 8 []).0.0
allocate_ip-HasDistinctIps_example = allocate_ip-HasDistinctIps wide 8 [] relay-HasDistinctIps

abbrev moved : Server
moved = record wide { ip_pool = (7, base + 9) ∷ []; route_table = (base + 9, 7) ∷ [] }

updated :
    update_device_ip wide 7 (some (base + 9)) ≡ ok (moved, save_pool ((7, base + 9) ∷ []) [] ∷ [])
unfolding update_device_ip assign_device move_device assigned_to_other notify_all lookup insert
    delete
updated = refl

update_device_ip_ok_example :
    (contains wide.subnet (base + 9) ≡ true)
    × (lookup 7 moved.ip_pool ≡ some (base + 9))
    × (lookup (base + 9) moved.route_table ≡ some 7)
    × HasDistinctIps moved
update_device_ip_ok_example =
    update_device_ip_ok wide moved 7 (base + 9) _ relay-HasDistinctIps updated

abbrev emptied : Server
emptied = record wide { ip_pool = []; route_table = [] }

deleted : delete_device wide 7 ≡ ok (emptied, save_pool [] [] ∷ [])
unfolding delete_device lookup delete
deleted = refl

-- The server before and after a restart.
abbrev before : Server
before = record relay {
  ip_pool = (7, base + 2) ∷ (9, base + 5) ∷ [];
  ip_pool_names = (7, 97 ∷ []) ∷ [];
}

abbrev after : Server
after = record relay { ip_pool = []; ip_pool_names = [] }

abbrev marshal : List IpPoolEntry → Option (List ℕ)
marshal entries = some (1 ∷ [])

abbrev unmarshal : List ℕ → Option (List IpPoolEntry)
unmarshal text = some (pool_entries before.ip_pool_names before.ip_pool)

before-HasDistinctKeys : HasDistinctKeys before.ip_pool
unfolding lookup
before-HasDistinctKeys = (refl, (refl, tt))

pooled : lookup 7 before.ip_pool ≡ some (base + 2)
unfolding lookup
pooled = refl

load_ip_pool_file-save_ip_pool_example :
    let t' : Server =
      load_ip_pool_file unmarshal (5 ∷ []) (save_ip_pool marshal true (5 ∷ []) [] before) after in
    ((allocate_ip t' 7 []).1 ≡ some (base + 2, 24))
    × (name_of 7 t'.ip_pool_names ≡ name_of 7 before.ip_pool_names)
    × ((d : ℕ) → lookup d t'.ip_pool ≡ lookup d before.ip_pool)
load_ip_pool_file-save_ip_pool_example =
    load_ip_pool_file-save_ip_pool marshal unmarshal (5 ∷ []) (1 ∷ []) [] before after 7 (base + 2)
      [] refl before-HasDistinctKeys refl refl refl refl pooled
