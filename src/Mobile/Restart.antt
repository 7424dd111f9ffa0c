-- ===== src/Mobile/Restart.antt =====
-- Start and Stop of mobile/mobile.go, one after the other and at once.
use mpfpv.Prelude.{
  ℕ, ◌≡◌, ◌≢◌, ◌<◌, ◌+◌, refl, ap, ◌∙◌, arith, List, [], ◌∷◌, true, false, Option, none, some, ◌==◌,
  ==_refl, if_true, if_false, Bool-cases, inl, inr,
}
use mpfpv.Prelude.Outcome.{ok}
use mpfpv.Client.State.{Client}
use mpfpv.Lifecycle.{Outside, ClientRun, launched, find_run, cancel_run, cancel_some, remove_run}
use mpfpv.Mobile.{StartArgs, System, mobile_client}
use mpfpv.Mobile.Port.{Target}
use mpfpv.Mobile.Steps.{
  start_begins, start_sets, with_start, with_client, launch, stop, run_ends, is_cancelled,
  find_start, remove_start,
}

find_run-cancel_run :
    (k : ℕ) (rs : List ClientRun) (r : ClientRun)
    → find_run k rs ≡ some r
    → find_run k (cancel_run k rs) ≡ some (record r { cancelled = true })
unfolding find_run cancel_run
find_run-cancel_run k [] r h = absurd (cc)
find_run-cancel_run k (x ∷ xs) r h = elim (Bool-cases (x.number == k)) [
  | inl same ↦ rw same (rw same (ground (arith, same, h)))
  | inr other ↦ rw other (rw other (find_run-cancel_run k xs r (ground (arith, other, h))))
]

-- Another run is not in the way.
find_run-ne :
    (k : ℕ) (r : ClientRun) (rs : List ClientRun)
    → r.number ≢ k
    → find_run k (r ∷ rs) ≡ find_run k rs
unfolding find_run
find_run-ne k r rs ne = if_false (r.number == k) _ _ (ground (arith, ne))

find_run_self : (r : ClientRun) (rs : List ClientRun) → find_run r.number (r ∷ rs) ≡ some r
unfolding find_run
find_run_self r rs = if_true (r.number == r.number) _ _ (==_refl r.number)

remove_run-ne :
    (k : ℕ) (r : ClientRun) (rs : List ClientRun)
    → r.number ≢ k
    → remove_run k (r ∷ rs) ≡ r ∷ remove_run k rs
unfolding remove_run
remove_run-ne k r rs ne = if_false (r.number == k) _ _ (ground (arith, ne))

cancel_run-ne :
    (k : ℕ) (r : ClientRun) (rs : List ClientRun)
    → r.number ≢ k
    → cancel_run k (r ∷ rs) ≡ r ∷ cancel_run k rs
unfolding cancel_run
cancel_run-ne k r rs ne =
    ap (λ (x : ClientRun). x ∷ cancel_run k rs)
      (if_false (r.number == k) (record r { cancelled = true }) r (ground (arith, ne)))

-- The run before the one that is cancelled.
find_run-earlier :
    (n : ℕ) (rs : List ClientRun)
    → find_run n (cancel_run (n + 1) (launched (n + 1) ∷ launched n ∷ rs)) ≡ some (launched n)
unfolding find_run cancel_run
find_run-earlier n rs = ground arith

run_ends-cancelled :
    (k : ℕ) (t : System) (r : ClientRun)
    → find_run k t.runs ≡ some r
    → r.cancelled ≡ true
    → run_ends k t ≡ record t {
      globals = record t.globals { running = false; cli = none };
      runs = remove_run k t.runs;
    }
unfolding run_ends
run_ends-cancelled k t r found cancelled =
    if_true (is_cancelled (find_run k t.runs)) _ t (ap is_cancelled found ∙ cancelled)

module _ (w : Outside) (target : Target) where
  start_sets-launch :
      (n : ℕ) (a : StartArgs) (s : System) (c : Client)
      → find_start n s.starts ≡ some (record { number = n; args = a })
      → mobile_client w s.android_id a ≡ ok c
      → start_sets w target true n s
        ≡ launch target n a (record s { starts = remove_start n s.starts })
  unfolding start_sets
  start_sets-launch n a s c found made =
      ap (with_start w target true s) found
      ∙ ap (with_client target true n a (record s { starts = remove_start n s.starts })) made

  -- The call of Start sees that no client runs.
  start_begins-idle :
      (a : StartArgs) (s : System)
      → s.globals.running ≡ false
      → start_begins a s ≡ record s {
        android_id = a.machine_id;
        tun_callback = some a.callback;
        starts = record { number = s.next; args = a } ∷ s.starts;
        next = s.next + 1;
      }
  unfolding start_begins
  start_begins-idle a s off = if_false s.globals.running s _ off

  -- A whole call of Start.
  start_sets-start_begins :
      (a : StartArgs) (s : System) (c : Client)
      → s.globals.running ≡ false
      → mobile_client w a.machine_id a ≡ ok c
      → (t : System) × (start_sets w target true s.next (start_begins a s) ≡ t)
        × (t.runs ≡ launched s.next ∷ s.runs)
        × (t.globals.cancel ≡ some s.next)
  unfolding find_start
  start_sets-start_begins a s c off made =
      let begun : System = record s {
        android_id = a.machine_id;
        tun_callback = some a.callback;
        starts = record { number = s.next; args = a } ∷ s.starts;
        next = s.next + 1;
      } in
      (
        launch target s.next a (record begun { starts = remove_start s.next begun.starts }),
        ap (start_sets w target true s.next) (start_begins-idle a s off)
            ∙ start_sets-launch s.next a begun c (if_true (s.next == s.next) _ _ (==_refl s.next))
                made,
        refl,
        refl,
      )

  -- If the Android client is stopped and started again before the goroutine of the old client has
  -- ended, then after that end the package says that nothing runs and holds no client, although
  -- the new client runs and is not cancelled. The old client is the one that Stop cancels, and
  -- Start makes a client and gets a socket.
  pub stop-start-run_ends :
      (s : System) (a : StartArgs) (k : ℕ) (r : ClientRun) (c : Client)
      → s.globals.cancel ≡ some k
      → find_run k s.runs ≡ some r
      → k < s.next
      → mobile_client w a.machine_id a ≡ ok c
      → let t = run_ends k (start_sets w target true s.next (start_begins a (stop s))) in
        (t.globals.running ≡ false)
        × (t.globals.cli ≡ none)
        × (find_run s.next t.runs ≡ some (launched s.next))
  unfolding stop
  stop-start-run_ends s a k r c cancel known old made =
      let (t, e, runs, _) = start_sets-start_begins a (stop s) c refl made in
      let ne : s.next ≢ k = λ h. absurd (omega (arith, h)) in
      let found : find_run k t.runs ≡ some (record r { cancelled = true }) =
        ap (find_run k) runs
        ∙ find_run-ne k (launched s.next) _ ne
        ∙ ap (λ (o : Option ℕ). find_run k (cancel_some o s.runs)) cancel
        ∙ find_run-cancel_run k s.runs r known in
      let ended =
        ap (run_ends k) e ∙ run_ends-cancelled k t (record r { cancelled = true }) found refl in
      (
        ap (λ (u : System). u.globals.running) ended,
        ap (λ (u : System). u.globals.cli) ended,
        ap (λ (u : System). find_run s.next u.runs) ended
            ∙ ap (λ (rs : List ClientRun). find_run s.next (remove_run k rs)) runs
            ∙ ap (find_run s.next) (remove_run-ne k (launched s.next) _ ne)
            ∙ find_run_self (launched s.next) _,
      )

  -- If two calls of Start see that nothing runs before one of them has said so, and both make a
  -- client and get a socket, then Stop leaves the client of the first running, not cancelled, and
  -- no cancel function is left.
  pub start_sets-stop :
      (s : System) (a b : StartArgs) (c d : Client)
      → s.globals.running ≡ false
      → mobile_client w b.machine_id a ≡ ok c
      → mobile_client w b.machine_id b ≡ ok d
      → let first = start_sets w target true s.next (start_begins b (start_begins a s)) in
        let t = stop (start_sets w target true (s.next + 1) first) in
        (find_run s.next t.runs ≡ some (launched s.next)) × (t.globals.cancel ≡ none)
  unfolding stop find_start remove_start
  start_sets-stop s a b c d off made made' =
      let one : System = record s {
        android_id = a.machine_id;
        tun_callback = some a.callback;
        starts = record { number = s.next; args = a } ∷ s.starts;
        next = s.next + 1;
      } in
      let two : System = record one {
        android_id = b.machine_id;
        tun_callback = some b.callback;
        starts = record { number = s.next + 1; args = b } ∷ one.starts;
        next = s.next + 1 + 1;
      } in
      let ne : s.next + 1 ≢ s.next = λ h. absurd (omega (arith, h)) in
      let begun : start_begins b (start_begins a s) ≡ two =
        ap (start_begins b) (start_begins-idle a s off) ∙ start_begins-idle b one off in
      let three : System =
        launch target s.next a (record two { starts = remove_start s.next two.starts }) in
      let first : start_sets w target true s.next (start_begins b (start_begins a s)) ≡ three =
        ap (start_sets w target true s.next) begun
        ∙ start_sets-launch s.next a two c
            (if_false (s.next + 1 == s.next) _ _ (ground (arith, ne))
              ∙ if_true (s.next == s.next) _ _ (==_refl s.next))
            made in
      let left : remove_start s.next two.starts
          ≡ record { number = s.next + 1; args = b } ∷ remove_start s.next one.starts =
        if_false (s.next + 1 == s.next) _ _ (ground (arith, ne)) in
      let second =
        ap (start_sets w target true (s.next + 1)) first
        ∙ start_sets-launch (s.next + 1) b three d
            (ap (find_start (s.next + 1)) left
              ∙ if_true (s.next + 1 == s.next + 1) _ _ (==_refl (s.next + 1)))
            made' in
      (
        ap (λ (u : System). find_run s.next (stop u).runs) second ∙ find_run-earlier s.next s.runs,
        refl,
      )
