-- ===== src/Client/Startup/Lifetime.antt =====
-- The client of internal/client/client.go from its configuration on.
use mpfpv.Prelude.{
  ℕ, ◌+◌, ◌^◌, ◌<◌, ◌≡◌, subst, List, Bool, true, false, Option, none, some, ◌||◌, if_elim, not,
  ◌&&◌,
}
use mpfpv.Prelude.Outcome.{Result, ok, err, returns}
use mpfpv.Config.{Config, is_empty}
use mpfpv.Transport.Paths.{Sender}
use mpfpv.Transport.Starting.{new_sender, start_sender, start_sender-AllOpen}
use mpfpv.Client.State.{Client, ClientEffect, new}
use mpfpv.Protocol.Dedup.Sound.{IsSound}
use mpfpv.Client.Binding.{BindError, resolve_interface_addr}
use mpfpv.Client.Running.{World, Event, run}
use mpfpv.Client.Running.Invariant.{OpenPaths, IsRunnable, GoesOn, GoesOn-Returns}
use mpfpv.Client.Running.Safety.{AllBind, run-GoesOn, new_section-IsRunnable}
use mpfpv.Client.Startup.{Sockets, RunError, bound, unbound, multipath_or, set_up}

-- A client that starts is well formed.
abbrev Starts : Result RunError Client → Type 0
Starts (err e) = Unit
Starts (ok c) = IsRunnable c

start_sender-OpenPaths :
    (w : Sockets) (now : ℕ) (mode : ℕ)
    → OpenPaths (
        start_sender w.server_is_ipv4 w.can_bind_addr w.can_listen6 w.can_listen4 now w.scanned
          (new_sender mode))
unfolding start_sender
start_sender-OpenPaths w now mode =
    if_elim OpenPaths (w.can_listen6 || w.can_listen4) _ none
      (λ can.
        start_sender-AllOpen w.server_is_ipv4 w.can_bind_addr now w.scanned (new_sender mode) tt)
      (λ cannot. tt)

module _ (w : Sockets) (c : Client) (good : IsRunnable c) where
  bound-Starts : (r : Result BindError (List ℕ)) → Starts (bound w c r)
  bound-Starts (err e) = tt
  bound-Starts (ok addr) = if_elim Starts (w.can_listen_on addr) _ _ (λ can. good) (λ cannot. tt)

  unbound-Starts : (has_conn : Bool) → Starts (unbound w has_conn c)
  unbound-Starts true = good
  unbound-Starts false = if_elim Starts w.can_listen _ _ (λ can. good) (λ cannot. tt)

  multipath_or-Starts :
      (has_conn : Bool) (o : Option Sender) → OpenPaths o → Starts (multipath_or w has_conn c o)
  multipath_or-Starts has_conn none open' = unbound-Starts has_conn
  multipath_or-Starts has_conn (some m) open' = record {
    ready = good.ready;
    paths = open';
    window = good.window;
  }

  set_up-Starts :
      (now : ℕ) (name : List ℕ) (has_conn : Bool) → Starts (set_up w now name has_conn c)
  unfolding set_up
  set_up-Starts now name has_conn =
      if_elim Starts (not (is_empty name)) _ _
        (λ named. bound-Starts (resolve_interface_addr w.bind_addrs))
        λ unnamed.
          if_elim Starts (not w.is_loopback && not has_conn) _ _
            (λ many. multipath_or-Starts has_conn _ (start_sender-OpenPaths w now c.send_mode))
            (λ one. unbound-Starts has_conn)

module _ (fnv32a : List ℕ → ℕ) (machine_id : List ℕ) (sha256 : List ℕ → List ℕ)
    (resolves : List ℕ → Bool) (hostname : List ℕ) where
  -- A client that was made from a configuration and has its sockets goes through any sequence of
  -- first heartbeats, ticks, datagrams, packets of its device, calls of Send and changes of the
  -- interfaces without a panic, and every index of its deduplicator is inside the bitmap at the
  -- end, and so after each of them. The window that it was made with has a size from 1 to 2 ^ 32 -
  -- 64, for which the bitmaps are long enough; a new socket can always be bound when one is
  -- recycled; and each round comes as a whole: no path is recycled while another goroutine removes
  -- it.
  pub set_up-run-Returns :
      (cfg : Config) (c c' : Client) (w : Sockets) (now : ℕ) (bind_interface : List ℕ)
      (has_conn : Bool) (events : List (World × ℕ × Event))
      → new fnv32a machine_id sha256 resolves hostname cfg ≡ ok c
      → 0 < c.dedup.window_size
      → c.dedup.window_size + 63 < 2 ^ 32
      → set_up w now bind_interface has_conn c ≡ ok c'
      → AllBind events
      → (after : Client) × (effects : List ClientEffect) × (run c' events
          ≡ returns (after, effects))
        × IsSound after.dedup
  unfolding new
  set_up-run-Returns cfg c c' w now bind_interface has_conn events made positive small started b =
      let good : IsRunnable c =
        new_section-IsRunnable fnv32a machine_id sha256 resolves hostname cfg.team_key cfg.client c
          made positive small in
      let good' : IsRunnable c' =
        subst Starts started (set_up-Starts w c good now bind_interface has_conn) in
      let goes = run-GoesOn c' events good' b in
      let ((after, effects), e) = GoesOn-Returns (run c' events) goes in
      (after, effects, e, (subst GoesOn e goes).window)
