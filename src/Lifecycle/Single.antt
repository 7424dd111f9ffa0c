-- ===== src/Lifecycle/Single.antt =====
-- The goroutine of a client, where there is only one.
use mpfpv.Prelude.{
  ℕ, ◌≡◌, sym, ap, subst, ◌∙◌, ◌⊎◌, inl, inr, refl, arith, List, [], ◌∷◌, Bool, true, false, Option,
  none, some, Bool-cases, ◌==◌, if◌then◌else◌,
}
use mpfpv.Lifecycle.{
  ClientRun, cancel_run, cancel_some, stop_run, stopping, find_run, can_finish, remove_run,
  launched, AllCancelled,
}

cancel_single :
    (o : Option ℕ) (r : ClientRun)
    → (o ≡ some r.number) ⊎ (r.cancelled ≡ true)
    → (r' : ClientRun) × (cancel_some o (r ∷ []) ≡ r' ∷ [])
      × (r'.number ≡ r.number)
      × (r'.cancelled ≡ true)
unfolding cancel_run
cancel_single none r (inl e) = absurd (cc)
cancel_single none r (inr c) = (r, refl, refl, c)
cancel_single (some n) r cf = elim (Bool-cases (r.number == n)) [
  | inl same ↦ (record r { cancelled = true }, rw same refl, refl, refl)
  | inr other ↦
      (r, rw other refl, refl, elim cf [ inl e ↦ absurd (ground (arith, other, e)) | inr c ↦ c ])
]

stop_single :
    (n : ℕ) (r : ClientRun)
    → (r' : ClientRun) × (stop_run n (r ∷ []) ≡ r' ∷ [])
      × (r'.number ≡ r.number)
      × (r'.cancelled ≡ r.cancelled)
unfolding stop_run
stop_single n r = elim (Bool-cases (r.number == n)) [
  | inl same ↦ (record r { phase = stopping }, rw same refl, refl, refl)
  | inr other ↦ (r, rw other refl, refl, refl)
]

-- A client that can end or fail is the one that runs.
finish_single :
    (n : ℕ) (r : ClientRun) → can_finish (find_run n (r ∷ [])) ≡ true → remove_run n (r ∷ []) ≡ []
unfolding find_run remove_run
finish_single n r h = elim (Bool-cases (r.number == n)) [
  | inl same ↦ rw same refl
  | inr other ↦ absurd (ground (arith, other, h))
]

-- What a controller knows of the runs: none, or one, which is cancelled already or is the one that
-- its cancel function cancels.
pub data SingleRun (connected : Bool) (client cancel : Option ℕ) (runs : List ClientRun)
    : Type 0 where
  idle : connected ≡ false → client ≡ none → runs ≡ [] → SingleRun connected client cancel runs
  busy :
      (r : ClientRun)
      → connected ≡ true
      → client ≡ some r.number
      → runs ≡ r ∷ []
      → (cancel ≡ some r.number) ⊎ (r.cancelled ≡ true)
      → SingleRun connected client cancel runs

module _ {connected : Bool} {client cancel : Option ℕ} {runs : List ClientRun}
    (single : SingleRun connected client cancel runs) where
  pub SingleRun-launch :
      (n : ℕ) → connected ≡ false → SingleRun true (some n) (some n) (launched n ∷ runs)
  SingleRun-launch n off = elim single [
    | idle off' cl none' ↦ busy (launched n) refl refl (ap (λ rs. launched n ∷ rs) none') (inl refl)
    | busy r on cl one ca ↦ absurd (cc)
  ]

  pub SingleRun-cancel :
      connected ≡ true → SingleRun connected client none (cancel_some cancel runs)
  SingleRun-cancel on = elim single [
    | idle off cl none' ↦ absurd (cc)
    | busy r on' cl one ca ↦
        let (r', e, number, cancelled) = cancel_single cancel r ca in
        busy r' on' (cl ∙ ap some (sym number)) (ap (cancel_some cancel) one ∙ e) (inr cancelled)
  ]

  pub SingleRun-stop : (n : ℕ) → SingleRun connected client cancel (stop_run n runs)
  unfolding stop_run
  SingleRun-stop n = elim single [
    | idle off cl none' ↦ idle off cl (ap (stop_run n) none')
    | busy r on cl one ca ↦
        let (r', e, number, cancelled) = stop_single n r in
        busy r' on (cl ∙ ap some (sym number)) (ap (stop_run n) one ∙ e)
          (elim ca [ inl h ↦ inl (h ∙ ap some (sym number)) | inr h ↦ inr (cancelled ∙ h) ])
  ]

  pub SingleRun-remove :
      (n : ℕ)
      → can_finish (find_run n runs) ≡ true
      → SingleRun false none cancel (remove_run n runs)
  unfolding remove_run find_run
  SingleRun-remove n can = elim single [
    | idle off cl none' ↦ idle refl refl (ap (remove_run n) none')
    | busy r on cl one ca ↦ idle refl refl (
        ap (remove_run n) one
        ∙ finish_single n r (subst (λ rs. can_finish (find_run n rs) ≡ true) one can))
  ]

  pub SingleRun-AllCancelled : AllCancelled (if connected then cancel_some cancel runs else runs)
  SingleRun-AllCancelled = elim single [
    | idle off cl none' ↦
        subst AllCancelled (sym (ap (λ b. if b then cancel_some cancel runs else runs) off ∙ none'))
          tt
    | busy r on cl one ca ↦
        let (r', e, number, cancelled) = cancel_single cancel r ca in
        subst AllCancelled
          (sym (
            ap (λ b. if b then cancel_some cancel runs else runs) on
            ∙ ap (cancel_some cancel) one
            ∙ e))
          (cancelled, tt)
  ]
