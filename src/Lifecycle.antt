-- ===== src/Lifecycle.antt =====
-- What the controllers of windows/, cmd/mpfpv-gui/ and mobile/ share: the goroutine that runs a client,
-- from the call of Run of internal/client/client.go to the end, and what the outside answers.
pub mod Single
use mpfpv.Prelude.{
  ℕ, ◌≡◌, List, [], ◌∷◌, Bool, true, false, ◌&&◌, not, Option, none, some, ◌==◌, if◌then◌else◌,
  get_or,
}
use mpfpv.Prelude.Map.{Map}
use mpfpv.Prelude.Outcome.{Result, ok, err}
use mpfpv.Protocol.Packet.{to4}
use mpfpv.Config.{Config, ClientConfig, ConfigError, SaveError, validate, save_config}
use mpfpv.Client.State.{Client, NewError, new}

-- What the packages outside of the repository answer: net, YAML, os, FNV-1a, SHA-256 and strings. The
-- addresses of an interface are as for resolveInterfaceAddr.
pub record Outside : Type 0 where
  pub is_host_port : List ℕ → Bool
  pub is_cidr : List ℕ → Bool
  pub resolves : List ℕ → Bool
  pub marshal : Config → Option (List ℕ)
  pub can_write : Bool
  pub fnv32a : List ℕ → ℕ
  pub machine_id : List ℕ
  pub sha256 : List ℕ → List ℕ
  pub hostname : List ℕ
  pub trim_space : List ℕ → List ℕ
  pub addrs_of : List ℕ → Option (Option (List (List ℕ)))

abbrev pub Files : Type 0
Files = Map (List ℕ) (List ℕ)

abbrev pub validated : Outside → Config → Option ConfigError
validated w cfg = validate w.is_host_port w.is_cidr cfg

abbrev pub saved : Outside → Files → List ℕ → Config → Result SaveError Files
saved w files path cfg = save_config w.marshal w.can_write files path cfg

abbrev pub created : Outside → Config → Result NewError Client
created w cfg = new w.fnv32a w.machine_id w.sha256 w.resolves w.hostname cfg

-- client.New writes the ID that it generates into the configuration that it is given.
abbrev pub with_client_id : ℕ → Config → Config
with_client_id id cfg = record cfg {
  client = elim cfg.client [ none ↦ none | some cc ↦ some (record cc { client_id = id }) ];
}

-- `active` is in Run; `stopping` has noted the error that Run returned, and takes the lock again.
pub data RunPhase : Type 0 where
  active stopping : RunPhase

-- The number stands for the client, for the context that cancels it, and for its goroutine.
pub record ClientRun : Type 0 where
  pub number : ℕ
  pub cancelled : Bool
  pub phase : RunPhase

abbrev pub launched : ℕ → ClientRun
launched n = record { number = n; cancelled = false; phase = active }

unfoldable pub find_run : ℕ → List ClientRun → Option ClientRun
find_run n [] = none
find_run n (r ∷ rs) = if r.number == n then some r else find_run n rs

unfoldable pub cancel_run : ℕ → List ClientRun → List ClientRun
cancel_run n [] = []
cancel_run n (r ∷ rs) =
    (if r.number == n then record r { cancelled = true } else r) ∷ cancel_run n rs

-- A cancel function that may be nil.
abbrev pub cancel_some : Option ℕ → List ClientRun → List ClientRun
cancel_some none rs = rs
cancel_some (some n) rs = cancel_run n rs

unfoldable pub stop_run : ℕ → List ClientRun → List ClientRun
stop_run n [] = []
stop_run n (r ∷ rs) = (if r.number == n then record r { phase = stopping } else r) ∷ stop_run n rs

unfoldable pub remove_run : ℕ → List ClientRun → List ClientRun
remove_run n [] = []
remove_run n (r ∷ rs) = let rest = remove_run n rs in if r.number == n then rest else r ∷ rest

-- Run returns nil only when it is cancelled.
abbrev pub can_finish : Option ClientRun → Bool
can_finish none = false
can_finish (some r) = elim r.phase [ active ↦ r.cancelled | stopping ↦ true ]

abbrev pub can_fail : Option ClientRun → Bool
can_fail none = false
can_fail (some r) = elim r.phase [ active ↦ true | stopping ↦ false ]

abbrev pub AllCancelled : List ClientRun → Type 0
AllCancelled [] = Unit
AllCancelled (r ∷ rs) = (r.cancelled ≡ true) × AllCancelled rs
