-- ===== src/Config/Files.antt =====
-- LoadConfig and SaveConfig of internal/config/config.go.
use mpfpv.Prelude.{
  ◌≡◌, refl, subst, ◌∙◌, arith, ℕ, List, [], ◌∷◌, Bool, true, none, some, Option, Option-cases, inl,
  inr, bytes_eq,
}
use mpfpv.Prelude.Int.{ℤ, pos, negsuc}
use mpfpv.Prelude.Map.{Map, lookup, insert, lookup-insert, beq_refl}
use mpfpv.Prelude.Outcome.{ok}
use mpfpv.Config.{
  Config, ClientConfig, ServerConfig, apply_defaults, client_defaults, server_defaults,
  default_string, default_int, validate, load_config, parsed, check_config, save_config,
  redundant_name, default_pool_file, some_client, some_server,
}

default_string_twice : (d s : List ℕ) → default_string d (default_string d s) ≡ default_string d s
default_string_twice [] [] = refl
default_string_twice (c ∷ cs) [] = refl
default_string_twice d (c ∷ cs) = refl

default_int_twice : (d : ℕ) (n : ℤ) → default_int d (default_int d n) ≡ default_int d n
default_int_twice d (pos n) = ground arith
default_int_twice d (negsuc n) = refl

pub some_client_twice : (o : Option ClientConfig) → some_client (some_client o) ≡ some_client o
some_client_twice none = refl
some_client_twice (some cc) = λ i. some (record (client_defaults cc) {
  send_mode = default_string_twice redundant_name cc.send_mode i;
  dedup_window = default_int_twice 4096 cc.dedup_window i;
})

some_server_twice : (o : Option ServerConfig) → some_server (some_server o) ≡ some_server o
some_server_twice none = refl
some_server_twice (some sc) = λ i. some (record (server_defaults sc) {
  client_timeout = default_int_twice 15 sc.client_timeout i;
  addr_timeout = default_int_twice 5 sc.addr_timeout i;
  dedup_window = default_int_twice 4096 sc.dedup_window i;
  ip_pool_file = default_string_twice default_pool_file sc.ip_pool_file i;
})

-- The defaults, filled in twice, are those filled in once.
apply_defaults_twice : (cfg : Config) → apply_defaults (apply_defaults cfg) ≡ apply_defaults cfg
unfolding apply_defaults
apply_defaults_twice cfg = λ i. record cfg {
  client = some_client_twice cfg.client i;
  server = some_server_twice cfg.server i;
}

-- The files after a configuration has been saved.
pub save_config_ok :
    (marshal : Config → Option (List ℕ)) (can_write : Bool) (files : Map (List ℕ) (List ℕ))
    (path text : List ℕ) (cfg : Config)
    → can_write ≡ true
    → marshal cfg ≡ some text
    → save_config marshal can_write files path cfg ≡ ok (insert path text files)
unfolding save_config
save_config_ok marshal can_write files path text cfg can written =
    rw (written, save_config) (rw can refl)

module _ (is_host_port is_cidr : List ℕ → Bool) where
  check_config_ok :
      (cfg cfg' : Config)
      → check_config is_host_port is_cidr cfg ≡ ok cfg'
      → (cfg ≡ cfg') × (validate is_host_port is_cidr cfg ≡ none)
  check_config_ok cfg cfg' h = elim (Option-cases (validate is_host_port is_cidr cfg)) [
    | inl none' ↦ (ground (arith, none', h), none')
    | inr (e, invalid') ↦ absurd (ground (arith, invalid', h))
  ]

  parsed_ok :
      (o : Option Config) (cfg : Config)
      → parsed is_host_port is_cidr o ≡ ok cfg
      → (validate is_host_port is_cidr cfg ≡ none) × (apply_defaults cfg ≡ cfg)
  parsed_ok none cfg h = absurd cc
  parsed_ok (some raw) cfg h =
      let (same, valid) = check_config_ok (apply_defaults raw) cfg h in
      (
        subst (λ c. validate is_host_port is_cidr c ≡ none) same valid,
        subst (λ c. apply_defaults c ≡ c) same (apply_defaults_twice raw),
      )

  -- What the program loads is valid, and its defaults are filled in.
  pub load_config_ok :
      (unmarshal : List ℕ → Option Config) (files : Map (List ℕ) (List ℕ)) (path : List ℕ)
      (cfg : Config)
      → load_config is_host_port is_cidr unmarshal files path ≡ ok cfg
      → (validate is_host_port is_cidr cfg ≡ none) × (apply_defaults cfg ≡ cfg)
  unfolding load_config
  load_config_ok unmarshal files path cfg h = elim (Option-cases (lookup path files)) [
    | inl none' ↦ absurd (ground (arith, none', h))
    | inr (data', e) ↦ parsed_ok (unmarshal data') cfg (ground (arith, e, h))
  ]

  -- A file that reads as a valid configuration whose defaults are filled in.
  pub load_config_found :
      (unmarshal : List ℕ → Option Config) (files : Map (List ℕ) (List ℕ)) (path text : List ℕ)
      (cfg : Config)
      → lookup path files ≡ some text
      → unmarshal text ≡ some cfg
      → apply_defaults cfg ≡ cfg
      → validate is_host_port is_cidr cfg ≡ none
      → load_config is_host_port is_cidr unmarshal files path ≡ ok cfg
  unfolding load_config
  load_config_found unmarshal files path text cfg found yaml filled valid =
      rw (found, load_config) (rw (yaml, filled) (ground (arith, valid)))

  -- A configuration that was loaded from one file and saved to another, or to the same, is loaded
  -- from there as it was. Of the YAML package it is used that reading gives back this
  -- configuration from what writing it gave.
  pub load_config-save_config :
      (unmarshal : List ℕ → Option Config) (marshal : Config → Option (List ℕ))
      (files files' : Map (List ℕ) (List ℕ)) (path target : List ℕ) (cfg : Config)
      → load_config is_host_port is_cidr unmarshal files path ≡ ok cfg
      → ((text : List ℕ) → marshal cfg ≡ some text → unmarshal text ≡ some cfg)
      → save_config marshal true files target cfg ≡ ok files'
      → load_config is_host_port is_cidr unmarshal files' target ≡ ok cfg
  unfolding save_config
  load_config-save_config unmarshal marshal files files' path target cfg loaded yaml saved =
      let (valid, filled) = load_config_ok unmarshal files path cfg loaded in
      elim (Option-cases (marshal cfg)) [
        | inl none' ↦ absurd (ground (arith, none', saved))
        | inr (text, e) ↦
            let new : insert target text files ≡ files' = ground (arith, e, saved) in
            let found : lookup target files' ≡ some text =
              subst (λ m. lookup target m ≡ some text) new
                (lookup-insert target target text files ∙ rw (beq_refl target) refl) in
            load_config_found unmarshal files' target text cfg found (yaml text e) filled valid
      ]
