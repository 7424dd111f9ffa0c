-- ===== src/Gui/Single.antt =====
-- At most one client at a time behind the GUI's endpoints.
use mpfpv.Prelude.{
  ℕ, ◌≡◌, subst, sym, refl, List, [], ◌∷◌, false, Option, none, some, if_elim, if◌then◌else◌, arith,
}
use mpfpv.Prelude.Outcome.{Result, ok, err}
use mpfpv.Config.{Config, ClientConfig, ConfigError, SaveError}
use mpfpv.Client.State.{Client, NewError}
use mpfpv.Lifecycle.{
  Outside, Files, cancel_some, find_run, can_finish, can_fail, created, validated, saved,
  AllCancelled,
}
use mpfpv.Lifecycle.Single.{
  SingleRun, idle, SingleRun-launch, SingleRun-cancel, SingleRun-stop, SingleRun-remove,
  SingleRun-AllCancelled,
}
use mpfpv.Web.{Method, http_get, http_post, Request}
use mpfpv.Gui.{
  System, Notice, SaveFailure, Connected, save_config, checked, with_files, gui_defaults, connect,
  with_config, with_section, with_client, disconnect, run_fails, run_ends, new_controller,
}
use mpfpv.Gui.Endpoints.{
  GuiRoute, available_path, config_path, connect_path, disconnect_path, status_path, Served,
  serve_gui, serve_config, serve_save, saved_status, serve_connect, connect_status,
  serve_disconnect, query, Event, request, fails, ends, step, run,
}

abbrev pub IsSingle : System → Type 0
IsSingle s = SingleRun s.controller.connected s.controller.client s.controller.cancel_func s.runs

abbrev Connects : Connected → Type 0
Connects ((s, notices), error) = IsSingle s

abbrev Serves : Served → Type 0
Serves ((s, notices), status) = IsSingle s

abbrev Ends : System × List Notice → Type 0
Ends (s, notices) = IsSingle s

abbrev Saves : System × Option SaveFailure → Type 0
Saves (s, error) = IsSingle s

module _ (w : Outside) (s : System) (v : IsSingle s) where
  with_files-Saves : (cfg : Config) (r : Result SaveError Files) → Saves (with_files cfg s r)
  with_files-Saves cfg (err e) = v
  with_files-Saves cfg (ok files) = v

  checked-Saves : (cfg : Config) (o : Option ConfigError) → Saves (checked w cfg s o)
  checked-Saves cfg (some e) = v
  checked-Saves cfg none = with_files-Saves cfg (saved w s.files s.controller.cfg_path cfg)

  save_config-Saves : (cfg : Config) → Saves (save_config w cfg s)
  unfolding save_config
  save_config-Saves cfg = checked-Saves (gui_defaults cfg) (validated w (gui_defaults cfg))

  with_client-Connects :
      (cfg : Config) (r : Result NewError Client)
      → s.controller.connected ≡ false
      → Connects (with_client cfg s r)
  with_client-Connects cfg (err e) off = v
  with_client-Connects cfg (ok cli) off = SingleRun-launch v s.next off

  with_section-Connects :
      (cfg : Config) (o : Option ClientConfig)
      → s.controller.connected ≡ false
      → Connects (with_section w s cfg o)
  with_section-Connects cfg none off = v
  with_section-Connects cfg (some cc) off = with_client-Connects cfg (created w cfg) off

  with_config-Connects :
      (o : Option Config) → s.controller.connected ≡ false → Connects (with_config w s o)
  with_config-Connects none off = v
  with_config-Connects (some cfg) off = with_section-Connects cfg cfg.client off

  connect-Connects : Connects (connect w s)
  unfolding connect
  connect-Connects = if_elim Connects _ _ _ (λ on. v) (with_config-Connects s.controller.cfg)

  disconnect-IsSingle : IsSingle (disconnect s)
  unfolding disconnect
  disconnect-IsSingle =
      if_elim IsSingle s.controller.connected _ s (λ on. SingleRun-cancel v on) (λ off. v)

  run_fails-IsSingle : (n : ℕ) (e : List ℕ) → IsSingle (run_fails n e s)
  unfolding run_fails
  run_fails-IsSingle n e =
      if_elim IsSingle (can_fail (find_run n s.runs)) _ s (λ can. SingleRun-stop v n) (λ no'. v)

  run_ends-Ends : (n : ℕ) → Ends (run_ends n s)
  unfolding run_ends
  run_ends-Ends n =
      if_elim Ends (can_finish (find_run n s.runs)) _ (s, []) (λ can. SingleRun-remove v n can)
        (λ no'. v)

  saved_status-Serves : (r : System × Option SaveFailure) → Saves r → Serves (saved_status r)
  saved_status-Serves (t, none) u = u
  saved_status-Serves (t, some e) u = u

  connect_status-Serves : (r : Connected) → Connects r → Serves (connect_status r)
  connect_status-Serves (t, none) u = u
  connect_status-Serves (t, some e) u = u

  serve_save-Serves : (o : Option Config) → Serves (serve_save w s o)
  serve_save-Serves none = v
  serve_save-Serves (some cfg) = saved_status-Serves (save_config w cfg s) (save_config-Saves cfg)

  query-Serves : (m : Method) → Serves (query s m)
  query-Serves http_get = v
  query-Serves _ = v

  serve_connect-Serves : (m : Method) → Serves (serve_connect w s m)
  serve_connect-Serves http_post = connect_status-Serves (connect w s) connect-Connects
  serve_connect-Serves _ = v

  serve_disconnect-Serves : (m : Method) → Serves (serve_disconnect s m)
  serve_disconnect-Serves http_post = disconnect-IsSingle
  serve_disconnect-Serves _ = v

  serve_config-Serves :
      (decode : List ℕ → Option Config) (m : Method) (body : List ℕ)
      → Serves (serve_config w decode s (record { method = m; body = body }))
  serve_config-Serves decode http_get body = v
  serve_config-Serves decode http_post body = serve_save-Serves (decode body)
  serve_config-Serves decode _ body = v

  serve_gui-Serves :
      (decode : List ℕ → Option Config) (route : GuiRoute) (r : Request)
      → Serves (serve_gui w decode s route r)
  unfolding serve_gui
  serve_gui-Serves decode available_path r = query-Serves r.method
  serve_gui-Serves decode config_path r = serve_config-Serves decode r.method r.body
  serve_gui-Serves decode connect_path r = serve_connect-Serves r.method
  serve_gui-Serves decode disconnect_path r = serve_disconnect-Serves r.method
  serve_gui-Serves decode status_path r = query-Serves r.method

  step-IsSingle : (decode : List ℕ → Option Config) (e : Event) → IsSingle (step w decode s e)
  unfolding step
  step-IsSingle decode (request route r) = serve_gui-Serves decode route r
  step-IsSingle decode (fails n error) = run_fails-IsSingle n error
  step-IsSingle decode (ends n) = run_ends-Ends n

run-IsSingle :
    (decode : List ℕ → Option Config) (s : System) (es : List (Outside × Event))
    → IsSingle s
    → IsSingle (run decode s es)
unfolding run
run-IsSingle decode s [] v = v
run-IsSingle decode s ((w, e) ∷ rest) v =
    run-IsSingle decode (step w decode s e) rest (step-IsSingle w s v decode e)

disconnect-runs :
    (s : System)
    → (disconnect s).runs
      ≡ (if s.controller.connected then cancel_some s.controller.cancel_func s.runs else s.runs)
unfolding disconnect
disconnect-runs s = ground arith

-- After any requests to the endpoints of the GUI and any ends of clients, in any order, at most
-- one client runs: the controller says that it is connected, and holds the client, exactly if one
-- runs. A Disconnect then leaves no client that is not cancelled.
pub serve_gui-IsSingle :
    (decode : List ℕ → Option Config) (c : Option Config) (path : List ℕ) (files : Files)
    (es : List (Outside × Event))
    → let s : System = record {
      controller = new_controller c path;
      runs = [];
      files = files;
      next = 0;
    } in
      IsSingle (run decode s es) × AllCancelled (disconnect (run decode s es)).runs
serve_gui-IsSingle decode c path files es =
    let v = run-IsSingle decode _ es (idle refl refl refl) in
    (v, subst AllCancelled (sym (disconnect-runs _)) (SingleRun-AllCancelled v))
