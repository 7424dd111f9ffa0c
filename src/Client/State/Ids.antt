-- ===== src/Client/State/Ids.antt =====
-- The client ID that New of internal/client/client.go settles on.
use mpfpv.Prelude.{ℕ, ◌<◌, ◌≤◌, ◌≡◌, arith, List, Bool, some}
use mpfpv.Prelude.Outcome.{ok}
use mpfpv.Config.{Config, ClientConfig}
use mpfpv.Client.State.{Client, stable_client_id, start, new_section}

module _ (fnv32a : List ℕ → ℕ) (machine_id : List ℕ) where
  pub stable_client_id_bounds :
      (name : List ℕ)
      → (100 ≤ stable_client_id fnv32a machine_id name)
        × (stable_client_id fnv32a machine_id name < 65000)
  unfolding stable_client_id
  stable_client_id_bounds name = (omega arith, omega arith)

module _ (fnv32a : List ℕ → ℕ) (machine_id : List ℕ) (sha256 : List ℕ → List ℕ)
    (resolves : List ℕ → Bool) (hostname : List ℕ) where
  pub new_start :
      (team_key : List ℕ) (cc : ClientConfig) (c : Client)
      → new_section fnv32a machine_id sha256 resolves hostname team_key (some cc) ≡ ok c
      → start fnv32a machine_id sha256 resolves hostname team_key cc ≡ c
  new_start team_key cc c made = ground (arith, made)
