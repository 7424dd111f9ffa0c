-- ===== src/Protocol/Dedup.antt =====
-- internal/protocol/dedup.go: the sliding-window deduplicator. A bitmap is a list of 64-bit words;
-- the locks only make each call atomic, so a call is a function of the state.
pub mod Bitmap
pub mod Window
pub mod Refine
pub mod History
pub mod Clients
pub mod Sound
pub mod Panics
use Prim.Native.Nat.{bit_and, bit_or}
use mpfpv.Prelude.{
  ℕ, zero, suc, ◌+◌, ◌-◌, ◌/◌, ◌%◌, ◌^◌, Bool, true, false, not, List, none, some, ltb, leb, ◌==◌,
  if◌then◌else◌, get_or, set, replicate, nat_eq,
}
use mpfpv.Prelude.Int.{ℤ, pos, negsuc, sub_ℕ, ◌+ℤ◌, ◌-ℤ◌, neg, ltb_ℤ}
use mpfpv.Prelude.Words.{u32, ◌<<<◌}
use mpfpv.Prelude.Map.{Map, lookup, insert, delete}

abbrev pub default_window_size : ℕ
default_window_size = 4096

pub record ClientState : Type 0 where
  pub max_seq : ℕ
  pub bitmap : List ℕ
  pub inited : Bool

pub record Deduplicator : Type 0 where
  pub window_size : ℕ
  pub clients : Map ℕ ClientState

unfoldable pub new_deduplicator : ℤ → Deduplicator
new_deduplicator (pos zero) = record { window_size = default_window_size; clients = List.[] }
new_deduplicator (pos (suc n)) = record { window_size = u32 (suc n); clients = List.[] }
new_deduplicator (negsuc n) = record { window_size = default_window_size; clients = List.[] }

-- An index that is not in the bitmap, or a window of 0, makes the next three panic; here such a write
-- changes nothing. That happens for no window size from 1 to 2 ^ 32 - 64: `Panics` has the same
-- functions with the panics, and compares them with these.
-- The bit of `seq` is bit `seq % window_size % 64` of word `seq % window_size / 64`.
unfoldable pub set_bit : List ℕ → ℕ → ℕ → List ℕ
set_bit bitmap seq window_size =
    let idx = seq % window_size in
    set bitmap (idx / 64) (bit_or (get_or bitmap (idx / 64) 0) (1 <<< (idx % 64)))

-- `&^=` is `&` with the complement in 64 bits.
unfoldable pub clear_bit : List ℕ → ℕ → ℕ → List ℕ
clear_bit bitmap seq window_size =
    let idx = seq % window_size in
    set bitmap (idx / 64) (bit_and (get_or bitmap (idx / 64) 0) (2 ^ 64 - 1 - (1 <<< (idx % 64))))

unfoldable pub get_bit : List ℕ → ℕ → ℕ → Bool
get_bit bitmap seq window_size =
    let idx = seq % window_size in
    not (bit_and (get_or bitmap (idx / 64) 0) (1 <<< (idx % 64)) == 0)

-- for i := 1; i <= shift; i++ { cs.clearBit(cs.maxSeq+uint32(i), d.windowSize) }, from `i` with `n`
-- rounds left.
unfoldable pub clear_bits : ℕ → ℕ → ℕ → ℕ → List ℕ → List ℕ
clear_bits window_size max_seq i zero bitmap = bitmap
clear_bits window_size max_seq i (suc n) bitmap =
    clear_bits window_size max_seq (i + 1) n (clear_bit bitmap (u32 (max_seq + u32 i)) window_size)

-- for i := range cs.bitmap { cs.bitmap[i] = 0 }
unfoldable pub zero_words : List ℕ → List ℕ
zero_words List.[] = List.[]
zero_words (List.◌∷◌ w ws) = List.◌∷◌ 0 (zero_words ws)

-- The distance from `max_seq` to `seq`, with the wrap-around of 32 bits.
unfoldable pub seq_diff : ℕ → ℕ → ℤ
seq_diff seq max_seq =
    let diff = sub_ℕ seq max_seq in
    if ltb_ℤ (pos (2 ^ 31)) diff
    then diff -ℤ pos (2 ^ 32)
    else if ltb_ℤ diff (neg (2 ^ 31))
    then diff +ℤ pos (2 ^ 32)
    else diff

-- The client starts, or starts again, at `seq`.
unfoldable pub start_at : ℕ → ℕ → List ℕ → ClientState
unfolding set_bit
start_at window_size seq bitmap = record {
  max_seq = seq;
  bitmap = set_bit bitmap seq window_size;
  inited = true;
}

-- The bitmap without the bits that the window slides over.
unfoldable pub clear_ahead : ℕ → ClientState → ℕ → List ℕ
unfolding clear_bits zero_words
clear_ahead window_size cs shift =
    if leb window_size shift
    then zero_words cs.bitmap
    else clear_bits window_size cs.max_seq 1 shift cs.bitmap

unfoldable pub slide_to : ℕ → ClientState → ℕ → ℕ → ClientState
slide_to window_size cs seq shift = record cs {
  max_seq = seq;
  bitmap = set_bit (clear_ahead window_size cs shift) seq window_size;
}

unfoldable pub check_behind : ℕ → ClientState → ℕ → ℕ → Bool × ClientState
unfolding start_at zero_words get_bit set_bit
check_behind window_size cs seq behind =
    if leb window_size behind
    then (false, start_at window_size seq (zero_words cs.bitmap))
    else if get_bit cs.bitmap seq window_size
    then (true, cs)
    else (false, record cs { bitmap = set_bit cs.bitmap seq window_size })

unfoldable pub check_diff : ℕ → ClientState → ℕ → ℤ → Bool × ClientState
unfolding slide_to check_behind clear_ahead set_bit
check_diff window_size cs seq (pos zero) = (true, cs)
check_diff window_size cs seq (pos (suc k)) = (false, slide_to window_size cs seq (suc k))
check_diff window_size cs seq (negsuc k) = check_behind window_size cs seq (suc k)

-- The part of `IsDuplicate` under the client's own lock.
unfoldable pub check : ℕ → ClientState → ℕ → Bool × ClientState
unfolding start_at check_diff seq_diff
check window_size cs seq =
    if cs.inited
    then check_diff window_size cs seq (seq_diff seq cs.max_seq)
    else (false, start_at window_size seq cs.bitmap)

unfoldable pub new_client : ℕ → ClientState
new_client window_size = record {
  max_seq = 0;
  bitmap = replicate (u32 (window_size + 63) / 64) 0;
  inited = false;
}

unfoldable pub client_state : Deduplicator → ℕ → ClientState
unfolding new_client
client_state d client_id = elim (lookup client_id d.clients) [
  | none ↦ new_client d.window_size
  | some cs ↦ cs
]

-- `IsDuplicate`: true if the packet is to be discarded.
unfoldable pub is_duplicate : Deduplicator → ℕ → ℕ → Bool × Deduplicator
unfolding client_state check
is_duplicate d client_id seq =
    let (dup, cs) = check d.window_size (client_state d client_id) seq in
    (dup, record d { clients = insert client_id cs d.clients })

unfoldable pub reset : Deduplicator → ℕ → Deduplicator
reset d client_id = record d { clients = delete client_id d.clients }
