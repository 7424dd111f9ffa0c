-- ===== src/Windows/Reconnect.antt =====
-- The watcher of windows/controller.go after a Disconnect.
use mpfpv.Prelude.{ℕ, ◌≡◌, ap, ◌∙◌, ◌∷◌, true, false, Option, none, some, if_false}
use mpfpv.Prelude.Outcome.{ok}
use mpfpv.Config.{is_empty}
use mpfpv.Client.State.{Client}
use mpfpv.Lifecycle.{Outside, created, validated, launched}
use mpfpv.Windows.{
  ConnectRequest, ConnectError, System, connect_locked, with_config, with_client, with_saved,
  launch, request_config, Watch, waiting, WatchPhase,
}
use mpfpv.Windows.Steps.{disconnect, disconnect_locked, watch_turn, find_watch, turn, leave}

module _ (w : Outside) (n : ℕ) where
  -- A request that is complete and valid, for which there is a client.
  pub connect_locked-launch :
      (req : ConnectRequest) (s : System) (cli : Client)
      → s.controller.connected ≡ false
      → is_empty req.bind_interface ≡ false
      → validated w (request_config w req) ≡ none
      → created w (request_config w req) ≡ ok cli
      → connect_locked w req s
        ≡ (launch w req (request_config w req) cli (with_saved w (request_config w req) s), none)
  unfolding connect_locked
  connect_locked-launch req s cli off given valid new' =
      if_false s.controller.connected _ _ off
      ∙ if_false (is_empty req.bind_interface) _ _ given
      ∙ ap (with_config w req (request_config w req) s) valid
      ∙ ap (with_client w req (request_config w req) (with_saved w (request_config w req) s)) new'

  disconnect_off :
      (s : System)
      → s.controller.connected ≡ false
      → disconnect s ≡ record s { controller = record s.controller { last_req = none } }
  unfolding disconnect disconnect_locked
  disconnect_off s off =
      ap (λ (t : System). record t { controller = record t.controller { last_req = none } })
        (if_false s.controller.connected _ s off)

  watch_turn-waiting :
      (s : System) (v : Watch) (req : ConnectRequest)
      → s.controller.connected ≡ false
      → find_watch n s.watches ≡ some v
      → v.phase ≡ waiting req
      → watch_turn w n s ≡ leave n (connect_locked w req s).0
  unfolding watch_turn
  watch_turn-waiting s v req off here waits =
      ap (λ (o : Option Watch). elim o [ none ↦ s | some u ↦ turn w n u.phase s ]) here
      ∙ ap (λ (p : WatchPhase). turn w n p s) waits
      ∙ if_false s.controller.connected s _ off

  -- A watcher of the simplified GUI that waits for the old client to stop, which has stopped,
  -- connects again with the request that it has copied although the user disconnects in the
  -- meantime, if the request names an interface, is valid, and gives a client: a new client runs
  -- then, and the request is the one for automatic reconnection.
  pub watch_turn-reconnects :
      (s : System) (v : Watch) (req : ConnectRequest) (cli : Client)
      → s.controller.connected ≡ false
      → find_watch n s.watches ≡ some v
      → v.phase ≡ waiting req
      → is_empty req.bind_interface ≡ false
      → validated w (request_config w req) ≡ none
      → created w (request_config w req) ≡ ok cli
      → ((watch_turn w n (disconnect s)).controller.connected ≡ true)
        × ((watch_turn w n (disconnect s)).controller.last_req ≡ some req)
        × ((watch_turn w n (disconnect s)).runs ≡ launched s.next ∷ s.runs)
  watch_turn-reconnects s v req cli off here waits given valid new' =
      let gone : System = record s { controller = record s.controller { last_req = none } } in
      let t : watch_turn w n (disconnect s)
          ≡ leave n
              (launch w req (request_config w req) cli (with_saved w (request_config w req) gone)) =
        ap (watch_turn w n) (disconnect_off s off)
        ∙ watch_turn-waiting gone v req off here waits
        ∙ ap (λ (r : System × Option ConnectError). leave n r.0)
            (connect_locked-launch req gone cli off given valid new') in
      (
        ap (λ (u : System). u.controller.connected) t,
        ap (λ (u : System). u.controller.last_req) t,
        ap (λ (u : System). u.runs) t,
      )
