-- ===== src/Config/Valid.antt =====
-- Validate of internal/config/config.go against a description of the valid configurations.
use mpfpv.Prelude.{
  ℕ, ◌≡◌, ◌≢◌, ◌↔◌, ◌⊎◌, inl, inr, refl, arith, List, [], ◌∷◌, Bool, true, false, none, some,
  Option-cases, subst, bytes_beq, bytes_beq_iff,
}
use mpfpv.Config.{
  ClientConfig, ServerConfig, Config, redundant_name, failover_name, client_mode, server_mode,
  validate_client, validate_server, validate, is_empty, client_section, server_section,
}

is_empty_iff : (xs : List ℕ) → (is_empty xs ≡ true) ↔ (xs ≡ [])
is_empty_iff [] = ground arith
is_empty_iff (x ∷ xs) = ground arith

same_mode : bytes_beq client_mode client_mode ≡ true
unfolding bytes_beq
same_mode = refl

other_mode : bytes_beq server_mode client_mode ≡ false
unfolding bytes_beq
other_mode = refl

same_server : bytes_beq server_mode server_mode ≡ true
unfolding bytes_beq
same_server = refl

module _ (is_host_port is_cidr : List ℕ → Bool) where
  -- What a client's section must hold: an address of the server, a CIDR as the old setting of the
  -- virtual address if there is one, and one of the two send modes.
  pub record IsClientConfig (cc : ClientConfig) : Type 0 where
    pub server_addr : (cc.server_addr ≢ []) × (is_host_port cc.server_addr ≡ true)
    pub virtual_ip : (cc.virtual_ip ≡ []) ⊎ (is_cidr cc.virtual_ip ≡ true)
    pub send_mode : (cc.send_mode ≡ redundant_name) ⊎ (cc.send_mode ≡ failover_name)

  pub record IsServerConfig (sc : ServerConfig) : Type 0 where
    pub listen_addr : (sc.listen_addr ≢ []) × (is_host_port sc.listen_addr ≡ true)
    pub virtual_ip : (sc.virtual_ip ≢ []) × (is_cidr sc.virtual_ip ≡ true)
    pub subnet : (sc.subnet ≢ []) × (is_cidr sc.subnet ≡ true)

  pub data IsValid (c : Config) : Type 0 where
    valid_client :
        (cc : ClientConfig)
        → c.mode ≡ client_mode
        → c.team_key ≢ []
        → c.client ≡ some cc
        → IsClientConfig cc
        → IsValid c
    valid_server :
        (sc : ServerConfig)
        → c.mode ≡ server_mode
        → c.team_key ≢ []
        → c.server ≡ some sc
        → IsServerConfig sc
        → IsValid c

  validate_client_iff :
      (cc : ClientConfig) → (validate_client is_host_port is_cidr cc ≡ none) ↔ IsClientConfig cc
  unfolding validate_client
  validate_client_iff cc =
      let empty = is_empty_iff cc.server_addr in
      let no_ip = is_empty_iff cc.virtual_ip in
      let same = bytes_beq_iff cc.send_mode redundant_name in
      let other = bytes_beq_iff cc.send_mode failover_name in
      (
        λ h. record {
          server_addr = ground (arith, empty);
          virtual_ip = ground (arith, no_ip);
          send_mode = ground (arith, same, other);
        },
        λ v. ground (arith, empty, no_ip, same, other, v.server_addr, v.virtual_ip, v.send_mode),
      )

  validate_server_iff :
      (sc : ServerConfig) → (validate_server is_host_port is_cidr sc ≡ none) ↔ IsServerConfig sc
  unfolding validate_server
  validate_server_iff sc =
      let no_listen = is_empty_iff sc.listen_addr in
      let no_ip = is_empty_iff sc.virtual_ip in
      let no_subnet = is_empty_iff sc.subnet in
      (
        λ h. record {
          listen_addr = ground (arith, no_listen);
          virtual_ip = ground (arith, no_ip);
          subnet = ground (arith, no_subnet);
        },
        λ v. ground (arith, no_listen, no_ip, no_subnet, v.listen_addr, v.virtual_ip, v.subnet),
      )

  validate_known :
      (c : Config)
      → validate is_host_port is_cidr c ≡ none
      → (c.team_key ≢ [])
        × ((c.mode ≡ client_mode) × (client_section is_host_port is_cidr c.client ≡ none)
            ⊎ (c.mode ≡ server_mode) × (server_section is_host_port is_cidr c.server ≡ none))
  unfolding validate
  validate_known c h =
      let no_key = is_empty_iff c.team_key in
      let client' = bytes_beq_iff c.mode client_mode in
      let server' = bytes_beq_iff c.mode server_mode in
      (ground (arith, no_key, client', server'), ground (arith, no_key, client', server'))

  is_valid :
      (c : Config)
      → (c.team_key ≢ [])
        × ((c.mode ≡ client_mode) × (client_section is_host_port is_cidr c.client ≡ none)
            ⊎ (c.mode ≡ server_mode) × (server_section is_host_port is_cidr c.server ≡ none))
      → IsValid c
  is_valid c (key, inl (mode, section)) = elim (Option-cases c.client) [
    | inl none' ↦ absurd (ground (arith, none', section))
    | inr (cc, e) ↦ valid_client cc mode key e (
        (validate_client_iff cc).0
          (subst (λ o. client_section is_host_port is_cidr o ≡ none) e section))
  ]
  is_valid c (key, inr (mode, section)) = elim (Option-cases c.server) [
    | inl none' ↦ absurd (ground (arith, none', section))
    | inr (sc, e) ↦ valid_server sc mode key e (
        (validate_server_iff sc).0
          (subst (λ o. server_section is_host_port is_cidr o ≡ none) e section))
  ]

  validate_valid : (c : Config) → IsValid c → validate is_host_port is_cidr c ≡ none
  unfolding validate
  validate_valid c (valid_client cc mode key e v) =
      let checked = (validate_client_iff cc).1 v in
      let no_key = is_empty_iff c.team_key in
      rw (mode, e) (ground (arith, no_key, key, checked, same_mode))
  validate_valid c (valid_server sc mode key e v) =
      let checked = (validate_server_iff sc).1 v in
      let no_key = is_empty_iff c.team_key in
      rw (mode, e) (ground (arith, no_key, key, checked, other_mode, same_server))

  -- A configuration passes the validation exactly if it has one of the two modes, a team key, and
  -- the section of its mode, whose entries have their formats.
  pub validate_iff : (c : Config) → (validate is_host_port is_cidr c ≡ none) ↔ IsValid c
  validate_iff c = (λ h. is_valid c (validate_known c h), validate_valid c)
