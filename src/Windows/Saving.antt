-- ===== src/Windows/Saving.antt =====
-- The file that Connect of windows/controller.go leaves.
use mpfpv.Prelude.{
  if◌then◌else◌, ◌≡◌, refl, List, ℕ, Option, none, some, true, subst, ◌∙◌, ap, sym, if_elim,
  if_true, bytes_eq,
}
use mpfpv.Prelude.Map.{lookup, insert, lookup-insert, beq_refl}
use mpfpv.Prelude.Outcome.{Result, ok, err}
use mpfpv.Config.{is_empty, load_config, apply_defaults, SaveError, Config, ConfigError}
use mpfpv.Config.Files.{load_config_found, save_config_ok}
use mpfpv.Client.State.{Client, NewError}
use mpfpv.Lifecycle.{Outside, Files, validated, created}
use mpfpv.Windows.{
  with_error, config_rejected, invalid_config, already_connected, no_interface,
  no_interface_selected, ConnectRequest, ConnectError, System, connect_locked, request_config,
  with_config, with_client, with_saved,
}

module _ (w : Outside) (req : ConnectRequest) where
  -- What an attempt to connect without an error has checked, and the files that it leaves.
  abbrev Attempt : System → System × Option ConnectError → Type 0
  Attempt s r =
      r.1 ≡ none
      → (validated w (request_config w req) ≡ none)
        × (r.0.files ≡ (with_saved w (request_config w req) s).files)

  refused-Attempt : (s t : System) (e : ConnectError) → Attempt s (t, some e)
  refused-Attempt s t e h = absurd (cc)

  with_client-Attempt :
      (s : System) (r : Result NewError Client)
      → validated w (request_config w req) ≡ none
      → Attempt s
          (with_client w req (request_config w req) (with_saved w (request_config w req) s) r)
  with_client-Attempt s (err e) valid h = absurd (cc)
  with_client-Attempt s (ok cli) valid h = (valid, refl)

  with_config-Attempt :
      (s : System) (o : Option ConfigError)
      → validated w (request_config w req) ≡ o
      → Attempt s (with_config w req (request_config w req) s o)
  with_config-Attempt s (some e) v =
      refused-Attempt s (with_error (config_rejected e) s) (invalid_config e)
  with_config-Attempt s none v = with_client-Attempt s (created w (request_config w req)) v

  connect_locked-Attempt : (s : System) → Attempt s (connect_locked w req s)
  unfolding connect_locked
  connect_locked-Attempt s =
      let checked : System × Option ConnectError =
        with_config w req (request_config w req) s (validated w (request_config w req)) in
      let refused : System × Option ConnectError =
        (with_error no_interface_selected s, some no_interface) in
      if_elim (Attempt s) s.controller.connected (s, some already_connected)
        (if is_empty req.bind_interface then refused else checked)
        (λ on. refused-Attempt s s already_connected)
        (λ off.
          if_elim (Attempt s) (is_empty req.bind_interface) refused checked
            (λ empty. refused-Attempt s (with_error no_interface_selected s) no_interface)
            (λ given. with_config-Attempt s (validated w (request_config w req)) refl))

  saved_files :
      (s : System) (text : List ℕ)
      → w.can_write ≡ true
      → w.marshal (request_config w req) ≡ some text
      → (with_saved w (request_config w req) s).files ≡ insert s.controller.cfg_path text s.files
  saved_files s text can written =
      ap (λ (r : Result SaveError Files). elim r [ ok files ↦ files | err e ↦ s.files ])
        (save_config_ok w.marshal w.can_write s.files s.controller.cfg_path text
          (request_config w req) can written)

  pub connect_locked-load_config :
      (s : System) (unmarshal : List ℕ → Option Config) (text : List ℕ)
      → (connect_locked w req s).1 ≡ none
      → w.can_write ≡ true
      → w.marshal (request_config w req) ≡ some text
      → unmarshal text ≡ some (request_config w req)
      → load_config w.is_host_port w.is_cidr unmarshal
          (connect_locked w req s).0.files
          s.controller.cfg_path
        ≡ ok (request_config w req)
  unfolding apply_defaults
  connect_locked-load_config s unmarshal text done can written read =
      let (valid, files) = connect_locked-Attempt s done in
      let found : lookup s.controller.cfg_path (connect_locked w req s).0.files ≡ some text =
        subst (λ m. lookup s.controller.cfg_path m ≡ some text)
          (sym (files ∙ saved_files s text can written))
          (lookup-insert s.controller.cfg_path s.controller.cfg_path text s.files
            ∙ if_true _ _ _ (beq_refl s.controller.cfg_path)) in
      load_config_found w.is_host_port w.is_cidr unmarshal _ s.controller.cfg_path text
        (request_config w req) found read refl valid
