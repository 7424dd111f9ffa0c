-- ===== src/Transport/Paths.antt =====
-- The paths of internal/transport/multipath.go: their state, the RTT samples, and the choice of the
-- active one. An interface name is its bytes, a duration a number of nanoseconds, a time that is not
-- set `none`. Of a socket there are its writes, and of the channel `closed` whether it is closed.
pub mod Choice
use mpfpv.Prelude.{
  ℕ, zero, ◌+◌, ◌-◌, ◌*◌, ◌/◌, List, [], ◌∷◌, ◌++◌, Bool, true, false, not, ◌&&◌, ◌||◌, Option,
  none, some, ltb, leb, ◌==◌, if◌then◌else◌, length, drop, bytes_beq, bytes_eq,
}
use mpfpv.Prelude.Map.{Map, lookup, insert}
use mpfpv.Prelude.Words.{u64}
use mpfpv.Protocol.Packet.{send_mode_failover}
use mpfpv.Server.Pool.{is_named}

abbrev pub second : ℕ
second = 1000000000

abbrev default_rtt_samples : ℕ
default_rtt_samples = 10

abbrev pub default_switch_cooldown : ℕ
default_switch_cooldown = 5 * second

abbrev miss_threshold_down : ℕ
miss_threshold_down = 5

pub data PathStatus : Type 0 where
  active suspect down : PathStatus

pub record NetPath : Type 0 where
  pub local_addr : List ℕ
  pub rtt : ℕ
  pub rtt_samples : List ℕ
  pub last_recv : ℕ
  pub status : PathStatus
  pub miss_count : ℕ
  pub tx_bytes : ℕ
  pub rx_bytes : ℕ
  pub last_recycled : Option ℕ
  pub recycle_count : ℕ
  pub closed : Bool

-- The switch cooldown is a field of the source's struct as well. An empty `active_path` is none.
pub record Sender : Type 0 where
  pub paths : Map (List ℕ) NetPath
  pub send_mode : ℕ
  pub active_path : List ℕ
  pub last_switch : Option ℕ
  pub switch_cooldown : ℕ

abbrev pub is_down : PathStatus → Bool
is_down active = false
is_down suspect = false
is_down down = true

pub sum : List ℕ → ℕ
sum [] = 0
sum (d ∷ ds) = d + sum ds

abbrev average_duration : List ℕ → ℕ
average_duration [] = 0
average_duration (d ∷ ds) = sum (d ∷ ds) / length (d ∷ ds)

-- The loop of `selectBestPathLocked`, with the best name and RTT so far.
unfoldable pub best_path : List ℕ → ℕ → Map (List ℕ) NetPath → List ℕ
best_path best_name best_rtt [] = best_name
best_path best_name best_rtt ((name, p) ∷ rest) =
    let skip = best_path best_name best_rtt rest in
    let take = best_path name p.rtt rest in
    if is_down p.status
    then skip
    else if not (is_named best_name) || ltb p.rtt best_rtt
    then take
    else skip

-- time.Since(t) < cooldown, which is false of a time that is not set.
abbrev is_within : ℕ → ℕ → Option ℕ → Bool
is_within now cooldown none = false
is_within now cooldown (some t) = ltb now (t + cooldown)

-- The active path is another than the best, is there, is not down, and was chosen just now.
unfoldable pub keeps_active : ℕ → Sender → List ℕ → Bool
keeps_active now m best = elim (lookup m.active_path m.paths) [
  | none ↦ false
  | some cur ↦
      is_named m.active_path
      && not (bytes_beq m.active_path best)
      && not (is_down cur.status)
      && is_within now m.switch_cooldown m.last_switch
]

-- m.activePath = m.selectBestPathLocked()
unfoldable pub select_best : ℕ → Sender → Sender
select_best now m =
    let best = best_path [] 0 m.paths in
    if keeps_active now m best
    then m
    else if bytes_beq best m.active_path
    then m
    else record m { active_path = best; last_switch = some now }

abbrev pub reselect : ℕ → Sender → Sender
reselect now m = if m.send_mode == send_mode_failover then select_best now m else m

abbrev last_samples : List ℕ → List ℕ
last_samples samples =
    if ltb default_rtt_samples (length samples)
    then drop (length samples - default_rtt_samples) samples
    else samples

abbrev pub add_sample : ℕ → ℕ → NetPath → NetPath
add_sample now rtt p =
    let samples = last_samples (p.rtt_samples ++ rtt ∷ []) in
    record p {
      rtt_samples = samples;
      rtt = average_duration samples;
      last_recv = now;
      miss_count = 0;
      recycle_count = 0;
      status = active;
    }

-- p.RxBytes += uint64(n), for what a path's own socket reads.
unfoldable pub count_received : List ℕ → ℕ → Sender → Sender
count_received name n m = elim (lookup name m.paths) [
  | none ↦ m
  | some p ↦ record m { paths = insert name (record p { rx_bytes = u64 (p.rx_bytes + n) }) m.paths }
]

unfoldable pub update_rtt : ℕ → Sender → List ℕ → ℕ → Sender
update_rtt now m name rtt = elim (lookup name m.paths) [
  | none ↦ m
  | some p ↦ reselect now (record m { paths = insert name (add_sample now rtt p) m.paths })
]

abbrev add_miss : NetPath → NetPath
add_miss p = record p {
  miss_count = p.miss_count + 1;
  status = if leb miss_threshold_down (p.miss_count + 1) then down else p.status;
}

unfoldable pub increment_miss : ℕ → Sender → List ℕ → Sender
increment_miss now m name = elim (lookup name m.paths) [
  | none ↦ m
  | some p ↦ reselect now (record m { paths = insert name (add_miss p) m.paths })
]

abbrev pub set_send_mode : ℕ → Sender → ℕ → Sender
set_send_mode now m mode = reselect now (record m { send_mode = mode })
