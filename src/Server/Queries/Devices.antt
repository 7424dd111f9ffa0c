-- ===== src/Server/Queries/Devices.antt =====
-- What GetDevices of internal/server/webapi.go lists.
use mpfpv.Prelude.{
  ℕ, zero, suc, arith, ◌+◌, List, false, ltb, if◌then◌else◌, ◌≡◌, refl, ap, ◌∙◌, [], ◌∷◌, Option,
  none, some, ◌==◌, length, nat_eq, sym, ==_iff, if_true, if_false, Bool-cases, inl, inr,
}
use mpfpv.Prelude.Map.{Map, lookup}
use mpfpv.Prelude.Sorting.{find_by, IsSortedBy, sort_by-IsSortedBy, find_by-sort_by, length-sort_by}
use mpfpv.Server.State.{Addr, AddrInfo, ClientSession, Server}
use mpfpv.Config.{is_empty, redundant_name, failover_name}
use mpfpv.Server.Queries.{
  DeviceInfo, DevicePathRtt, device_info, device_infos, get_devices, with_session, offline_device,
  path_rtts, send_mode_string, unknown_name,
}

abbrev pub id_of : DeviceInfo → ℕ
id_of d = d.client_id

with_session-client_id :
    (now timeout : ℕ) (d : DeviceInfo) (o : Option ClientSession)
    → (with_session now timeout d o).client_id ≡ d.client_id
with_session-client_id now timeout d none = refl
with_session-client_id now timeout d (some session) = refl

abbrev coded_device : ℕ → Server → ℕ → Option ℕ → Option DeviceInfo
coded_device now s id none = none
coded_device now s id (some ip) = some (device_info now s id ip)

-- The name of a mode: 0 is redundant, and 1 is failover.
abbrev mode_text : ℕ → List ℕ
mode_text zero = redundant_name
mode_text (suc zero) = failover_name
mode_text (suc (suc n)) = unknown_name

abbrev unless_empty : List ℕ → List ℕ → List ℕ
unless_empty [] other = other
unless_empty (b ∷ bs) other = b ∷ bs

-- The addresses that have the name of a NIC, with what its last heartbeat said.
abbrev nic_of : AddrInfo → List ℕ → List DevicePathRtt → List DevicePathRtt
nic_of info [] more = more
nic_of info (b ∷ bs) more =
    record {
      name = b ∷ bs;
      rtt_ms = info.nic_rtt_ms;
      tx_bytes = info.nic_tx_bytes;
      rx_bytes = info.nic_rx_bytes;
    }
    ∷ more

abbrev nics_of : Map Addr AddrInfo → List DevicePathRtt
nics_of [] = []
nics_of ((key, info) ∷ rest) = nic_of info info.nic_name (nics_of rest)

-- A device of the pool with its address and the name that the pool has for it, alone or with a
-- session: that has the session's own name before the pool's, and is online if the session was seen
-- less than the timeout ago.
abbrev expected : ℕ → ℕ → ℕ → ℕ → List ℕ → Option ClientSession → DeviceInfo
expected now timeout id ip name none = record {
  client_id = id;
  virtual_ip = ip;
  device_name = name;
  online = false;
  send_mode = [];
  last_seen = none;
  addr_count = 0;
  path_rtts = [];
  rx_bytes = 0;
  tx_bytes = 0;
}
expected now timeout id ip name (some session) = record {
  client_id = id;
  virtual_ip = ip;
  device_name = unless_empty session.device_name name;
  online = ltb now (session.last_seen + timeout);
  send_mode = mode_text session.send_mode;
  last_seen = some session.last_seen;
  addr_count = length session.addrs;
  path_rtts = nics_of session.addrs;
  rx_bytes = session.rx_bytes;
  tx_bytes = session.tx_bytes;
}

abbrev or_nothing : Option (List ℕ) → List ℕ
or_nothing none = []
or_nothing (some name) = name

abbrev pub listed_device : ℕ → Server → ℕ → Option ℕ → Option DeviceInfo
listed_device now s id none = none
listed_device now s id (some ip) = some (
    expected now s.client_timeout id ip (or_nothing (lookup id s.ip_pool_names))
      (lookup id s.sessions))

send_mode_string_lem : (mode : ℕ) → send_mode_string mode ≡ mode_text mode
unfolding send_mode_string
send_mode_string_lem zero = refl
send_mode_string_lem (suc zero) = refl
send_mode_string_lem (suc (suc n)) = ground arith

unless_empty_lem :
    (own other : List ℕ) → (if is_empty own then other else own) ≡ unless_empty own other
unless_empty_lem [] other = refl
unless_empty_lem (b ∷ bs) other = refl

path_rtts_lem : (addrs : Map Addr AddrInfo) → path_rtts addrs ≡ nics_of addrs
path_rtts_lem [] = refl
path_rtts_lem ((k, info) ∷ rest) = rw (path_rtts_lem rest) (named info.nic_name (nics_of rest))
  where
    named :
        (name : List ℕ) (more : List DevicePathRtt)
        → (if is_empty name
            then more
            else record {
              name = name;
              rtt_ms = info.nic_rtt_ms;
              tx_bytes = info.nic_tx_bytes;
              rx_bytes = info.nic_rx_bytes;
            }
              ∷ more)
          ≡ nic_of info name more
    named [] more = refl
    named (b ∷ bs) more = refl

with_session_lem :
    (now timeout id ip : ℕ) (name : List ℕ) (o : Option ClientSession)
    → with_session now timeout (offline_device id ip name) o ≡ expected now timeout id ip name o
with_session_lem now timeout id ip name none = refl
with_session_lem now timeout id ip name (some session) =
    rw
      (
        unless_empty_lem session.device_name name,
        send_mode_string_lem session.send_mode,
        path_rtts_lem session.addrs,
      )
      refl

name_of_lem : (o : Option (List ℕ)) → elim o [ none ↦ [] | some name ↦ name ] ≡ or_nothing o
name_of_lem none = refl
name_of_lem (some name) = refl

coded_device_lem :
    (now id : ℕ) (s : Server) (o : Option ℕ) → coded_device now s id o ≡ listed_device now s id o
coded_device_lem now id s none = refl
coded_device_lem now id s (some ip) = ap some (
    with_session_lem now s.client_timeout id ip _ (lookup id s.sessions)
    ∙ ap (λ name. expected now s.client_timeout id ip name (lookup id s.sessions))
        (name_of_lem (lookup id s.ip_pool_names)))

find_by-device_infos :
    (now id : ℕ) (s : Server) (pool : Map ℕ ℕ)
    → find_by id_of id (device_infos now s pool) ≡ coded_device now s id (lookup id pool)
unfolding find_by device_infos lookup
find_by-device_infos now id s [] = refl
find_by-device_infos now id s ((k, ip) ∷ rest) =
    let own : id_of (device_info now s k ip) ≡ k = with_session-client_id now _ _ _ in
    let later = find_by id_of id (device_infos now s rest) in
    elim (Bool-cases (k == id)) [
      | inl same ↦
          if_true _ _ later (ap (λ j. j == id) own ∙ same)
          ∙ ap (λ j. some (device_info now s j ip)) ((==_iff k id).0 same)
          ∙ ap (coded_device now s id) (sym (if_true (k == id) _ (lookup id rest) same))
      | inr other ↦
          if_false _ (some (device_info now s k ip)) _ (ap (λ j. j == id) own ∙ other)
          ∙ find_by-device_infos now id s rest
          ∙ ap (coded_device now s id) (sym (if_false (k == id) (some ip) _ other))
    ]

length-device_infos :
    (now : ℕ) (s : Server) (pool : Map ℕ ℕ) → length (device_infos now s pool) ≡ length pool
unfolding device_infos
length-device_infos now s [] = refl
length-device_infos now s ((k, ip) ∷ rest) = ap suc (length-device_infos now s rest)

-- The list of the devices is sorted by ID and has an entry for each of the pool's, and under an ID
-- there is exactly the device that the pool has there, with its address and its name; if it has a
-- session, also with the session's name, if that is not empty, mode, last time, number of
-- addresses, byte counts and NICs, and online if it was seen less than the timeout ago.
pub get_devices_lists :
    (now id : ℕ) (s : Server)
    → IsSortedBy id_of (get_devices now s)
      × (length (get_devices now s) ≡ length s.ip_pool)
      × (find_by id_of id (get_devices now s) ≡ listed_device now s id (lookup id s.ip_pool))
unfolding get_devices
get_devices_lists now id s = (
  sort_by-IsSortedBy id_of (device_infos now s s.ip_pool),
  length-sort_by id_of (device_infos now s s.ip_pool) ∙ length-device_infos now s s.ip_pool,
  find_by-sort_by id_of id (device_infos now s s.ip_pool)
      ∙ find_by-device_infos now id s s.ip_pool
      ∙ coded_device_lem now id s (lookup id s.ip_pool),
)
