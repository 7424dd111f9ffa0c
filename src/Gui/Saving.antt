-- ===== src/Gui/Saving.antt =====
-- The file that SaveConfig of cmd/mpfpv-gui/controller.go leaves.
use mpfpv.Prelude.{
  ℕ, ◌≡◌, inl, inr, refl, subst, ◌∙◌, arith, List, Option, none, some, Bool-cases, bytes_eq,
  if_true,
}
use mpfpv.Prelude.Map.{lookup, insert, lookup-insert, beq_refl}
use mpfpv.Prelude.Outcome.{Result, ok, err}
use mpfpv.Config as Configuration
use mpfpv.Config.{
  Config, ConfigError, SaveError, load_config, apply_defaults, some_client, some_server,
}
use mpfpv.Config.Files.{load_config_found, save_config_ok, some_client_twice}
use mpfpv.Lifecycle.{Outside, Files, validated, saved}
use mpfpv.Gui.{System, SaveFailure, save_config, checked, with_files, gui_defaults}

module _ (w : Outside) (cfg : Config) (s : System) where
  -- A call without an error: the configuration is valid, and the files are as SaveConfig leaves them.
  abbrev Attempt : System × Option SaveFailure → Type 0
  Attempt r =
      r.1 ≡ none
      → (validated w (gui_defaults cfg) ≡ none)
        × (saved w s.files s.controller.cfg_path (gui_defaults cfg) ≡ ok r.0.files)
        × (r.0.controller.cfg ≡ some (gui_defaults cfg))

  with_files-Attempt :
      (r : Result SaveError Files)
      → saved w s.files s.controller.cfg_path (gui_defaults cfg) ≡ r
      → validated w (gui_defaults cfg) ≡ none
      → Attempt (with_files (gui_defaults cfg) s r)
  with_files-Attempt (err e) written valid h = absurd (cc)
  with_files-Attempt (ok files) written valid h = (valid, written, refl)

  checked-Attempt :
      (o : Option ConfigError)
      → validated w (gui_defaults cfg) ≡ o
      → Attempt (checked w (gui_defaults cfg) s o)
  checked-Attempt (some e) valid h = absurd (cc)
  checked-Attempt none valid h = with_files-Attempt _ refl valid h

  save_config-Attempt : Attempt (save_config w cfg s)
  unfolding save_config
  save_config-Attempt = checked-Attempt (validated w (gui_defaults cfg)) refl

  saved_files :
      (text : List ℕ) (files : Files)
      → w.marshal (gui_defaults cfg) ≡ some text
      → saved w s.files s.controller.cfg_path (gui_defaults cfg) ≡ ok files
      → insert s.controller.cfg_path text s.files ≡ files
  unfolding Configuration.save_config
  saved_files text files written h = elim (Bool-cases w.can_write) [
    | inl can ↦ ground (
      arith,
      save_config_ok w.marshal w.can_write s.files s.controller.cfg_path text (gui_defaults cfg) can
          written,
    )
    | inr cannot ↦ absurd (ground (arith, cannot, written, h))
  ]

  -- After the GUI has saved a configuration without an error, the controller holds it with the
  -- mode of a client and the defaults filled in, and the same configuration is loaded from the
  -- file. The server's section, if there is one, has its defaults; of the YAML package it is used
  -- that this configuration is written as some text, from which reading gives it back.
  save_config-load_config :
      (unmarshal : List ℕ → Option Config) (text : List ℕ)
      → (save_config w cfg s).1 ≡ none
      → some_server cfg.server ≡ cfg.server
      → w.marshal (gui_defaults cfg) ≡ some text
      → unmarshal text ≡ some (gui_defaults cfg)
      → ((save_config w cfg s).0.controller.cfg ≡ some (gui_defaults cfg))
        × (load_config w.is_host_port w.is_cidr unmarshal
              (save_config w cfg s).0.files
              s.controller.cfg_path
            ≡ ok (gui_defaults cfg))
  unfolding apply_defaults
  save_config-load_config unmarshal text done server written read =
      let (valid, files, kept) = save_config-Attempt done in
      let found : lookup s.controller.cfg_path (save_config w cfg s).0.files ≡ some text =
        subst (λ m. lookup s.controller.cfg_path m ≡ some text) (saved_files text _ written files)
          (lookup-insert s.controller.cfg_path s.controller.cfg_path text s.files
            ∙ if_true _ _ _ (beq_refl s.controller.cfg_path)) in
      let filled : apply_defaults (gui_defaults cfg) ≡ gui_defaults cfg = λ i.
        record (gui_defaults cfg) { client = some_client_twice cfg.client i; server = server i } in
      (
        kept,
        load_config_found w.is_host_port w.is_cidr unmarshal _ s.controller.cfg_path text
            (gui_defaults cfg) found read filled valid,
      )
