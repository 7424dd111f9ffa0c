-- ===== src/Windows/Single.antt =====
-- At most one client at a time under the controller of windows/controller.go.
use mpfpv.Prelude.{
  ℕ, arith, ◌≡◌, subst, sym, refl, List, [], ◌∷◌, false, Option, none, some, Option-cases, inl, inr,
  if_elim, if◌then◌else◌,
}
use mpfpv.Prelude.Outcome.{ok, err, Result}
use mpfpv.Config.{Config, ConfigError}
use mpfpv.Client.State.{Client, NewError}
use mpfpv.Lifecycle.{
  Outside, Files, cancel_some, find_run, can_finish, can_fail, created, validated, AllCancelled,
}
use mpfpv.Lifecycle.Single.{
  SingleRun, idle, SingleRun-launch, SingleRun-cancel, SingleRun-stop, SingleRun-remove,
  SingleRun-AllCancelled,
}
use mpfpv.Windows.{
  ConnectRequest, ConnectError, WatchPhase, System, connect_locked, with_client, with_config,
  with_saved, request_config, new_system, Watch, watching, disconnecting, waiting,
}
use mpfpv.Windows.Steps.{
  step, run, Event, connects, disconnects, fails, ends, turns, done, disconnect_locked, disconnect,
  run_fails, run_ends, watch_turn, is_over, watched, turn, leave, watch_done, find_watch,
}

abbrev pub IsSingle : System → Type 0
IsSingle s = SingleRun s.controller.connected s.controller.client s.controller.cancel_func s.runs

abbrev Kept : System × Option ConnectError → Type 0
Kept (s, error) = IsSingle s

module _ (w : Outside) (req : ConnectRequest) where
  with_client-Kept :
      (cfg : Config) (s : System) (r : Result NewError Client)
      → s.controller.connected ≡ false
      → IsSingle s
      → Kept (with_client w req cfg s r)
  with_client-Kept cfg s (err e) off v = v
  with_client-Kept cfg s (ok cli) off v = SingleRun-launch v s.next off

  with_config-Kept :
      (cfg : Config) (s : System) (o : Option ConfigError)
      → s.controller.connected ≡ false
      → IsSingle s
      → Kept (with_config w req cfg s o)
  with_config-Kept cfg s (some e) off v = v
  with_config-Kept cfg s none off v =
      with_client-Kept cfg (with_saved w cfg s) (created w cfg) off v

  connect_locked-IsSingle : (s : System) → IsSingle s → Kept (connect_locked w req s)
  unfolding connect_locked
  connect_locked-IsSingle s v =
      if_elim Kept _ _ _ (λ on. v)
        λ off.
          if_elim Kept _ _ _ (λ empty. v)
            λ given.
              with_config-Kept (request_config w req) s (validated w (request_config w req)) off v

disconnect_locked-IsSingle : (s : System) → IsSingle s → IsSingle (disconnect_locked s)
unfolding disconnect_locked
disconnect_locked-IsSingle s v =
    if_elim IsSingle s.controller.connected _ s (λ on. SingleRun-cancel v on) (λ off. v)

pub disconnect-IsSingle : (s : System) → IsSingle s → IsSingle (disconnect s)
unfolding disconnect
disconnect-IsSingle s v = disconnect_locked-IsSingle s v

run_fails-IsSingle : (n : ℕ) (e : List ℕ) (s : System) → IsSingle s → IsSingle (run_fails n e s)
unfolding run_fails
run_fails-IsSingle n e s v =
    if_elim IsSingle (can_fail (find_run n s.runs)) _ s (λ can. SingleRun-stop v n) (λ no'. v)

run_ends-IsSingle : (n : ℕ) (s : System) → IsSingle s → IsSingle (run_ends n s)
unfolding run_ends
run_ends-IsSingle n s v =
    if_elim IsSingle (can_finish (find_run n s.runs)) _ s (λ can. SingleRun-remove v n can)
      (λ no'. v)

module _ (w : Outside) (n : ℕ) where
  watched-IsSingle :
      (o : Option ConnectRequest) (s : System) → IsSingle s → IsSingle (watched w n o s)
  watched-IsSingle none s v = v
  watched-IsSingle (some req) s v =
      if_elim IsSingle s.controller.connected _ _
        (λ on. if_elim IsSingle _ s _ (λ same. v) (λ new. v)) (λ off. v)

  turn-IsSingle : (p : WatchPhase) (s : System) → IsSingle s → IsSingle (turn w n p s)
  turn-IsSingle watching s v = watched-IsSingle s.controller.last_req s v
  turn-IsSingle (disconnecting req) s v = disconnect_locked-IsSingle s v
  turn-IsSingle (waiting req) s v =
      if_elim IsSingle s.controller.connected s _ (λ on. v)
        (λ off. connect_locked-IsSingle w req s v)

  watch_turn-IsSingle : (s : System) → IsSingle s → IsSingle (watch_turn w n s)
  unfolding watch_turn
  watch_turn-IsSingle s v =
      let next : Option Watch → System = λ o. elim o [ none ↦ s | some u ↦ turn w n u.phase s ] in
      elim (Option-cases (find_watch n s.watches)) [
        | inl gone ↦ subst (λ o. IsSingle (next o)) (sym gone) v
        | inr (u, e) ↦ subst (λ o. IsSingle (next o)) (sym e) (turn-IsSingle u.phase s v)
      ]

watch_done-IsSingle : (n : ℕ) (s : System) → IsSingle s → IsSingle (watch_done n s)
unfolding watch_done
watch_done-IsSingle n s v =
    if_elim IsSingle (is_over (find_watch n s.watches)) (leave n s) s (λ over. v) (λ no'. v)

pub step-IsSingle : (w : Outside) (s : System) (e : Event) → IsSingle s → IsSingle (step w s e)
unfolding step
step-IsSingle w s (connects req) v = connect_locked-IsSingle w req s v
step-IsSingle w s disconnects v = disconnect-IsSingle s v
step-IsSingle w s (fails n error) v = run_fails-IsSingle n error s v
step-IsSingle w s (ends n) v = run_ends-IsSingle n s v
step-IsSingle w s (turns n) v = watch_turn-IsSingle w n s v
step-IsSingle w s (done n) v = watch_done-IsSingle n s v

run-IsSingle : (s : System) (es : List (Outside × Event)) → IsSingle s → IsSingle (run s es)
unfolding run
run-IsSingle s [] v = v
run-IsSingle s ((w, e) ∷ rest) v = run-IsSingle (step w s e) rest (step-IsSingle w s e v)

disconnect-runs :
    (s : System)
    → (disconnect s).runs
      ≡ (if s.controller.connected then cancel_some s.controller.cancel_func s.runs else s.runs)
unfolding disconnect disconnect_locked
disconnect-runs s = ground arith

-- After any steps of the simplified GUI, with connections and disconnections by the user, ends of
-- clients and turns of the watchers of the interface in any order, at most one client runs: the
-- controller says that it is connected, and holds the client, exactly if one runs. A Disconnect
-- then leaves no client that is not cancelled.
pub run-new_system-IsSingle :
    (path : List ℕ) (cfg : Option Config) (files : Files) (es : List (Outside × Event))
    → IsSingle (run (new_system path cfg files) es)
      × AllCancelled (disconnect (run (new_system path cfg files) es)).runs
run-new_system-IsSingle path cfg files es =
    let v = run-IsSingle (new_system path cfg files) es (idle refl refl refl) in
    (v, subst AllCancelled (sym (disconnect-runs _)) (SingleRun-AllCancelled v))
