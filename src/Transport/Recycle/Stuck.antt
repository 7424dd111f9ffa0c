-- ===== src/Transport/Recycle/Stuck.antt =====
-- Which paths the recycling of internal/transport/multipath.go leaves as they are.
use mpfpv.Prelude.{
  ℕ, ◌<◌, ◌≡◌, refl, sym, ◌∙◌, arith, List, [], ◌∷◌, Bool, true, false, ◌||◌, none, some,
  Bool-cases, Option-cases, inl, inr, bytes_beq, bytes_beq_iff, bytes_eq,
}
use mpfpv.Prelude.Outcome.{Run, returns, panics, ◌>>=◌}
use mpfpv.Prelude.Map.{Map, lookup, lookup-insert}
use mpfpv.Transport.Paths.{Sender, NetPath, is_down}
use mpfpv.Transport.Recycle.{
  check_path, check_paths, add_stale, keep, mark_down, stale, Check, recycle_path, recycle_all,
  check_and_recycle, renew, recycle_max_attempts,
}

-- The keys of a Go map are all different.
abbrev pub HasDistinctNames : Map (List ℕ) NetPath → Type 0
HasDistinctNames [] = Unit
HasDistinctNames ((name, p) ∷ rest) = (lookup name rest ≡ none) × HasDistinctNames rest

pub listed : List ℕ → List (List ℕ) → Bool
listed name [] = false
listed name (other ∷ names) = bytes_beq other name || listed name names

listed-add_stale :
    (c : Check) (name other : List ℕ) (names : List (List ℕ))
    → bytes_beq other name ≡ false
    → listed name (add_stale c other names) ≡ listed name names
unfolding listed
listed-add_stale keep name other names miss = refl
listed-add_stale mark_down name other names miss = refl
listed-add_stale stale name other names miss = rw miss refl

absent-check_paths :
    (now : ℕ) (m : Map (List ℕ) NetPath) (name : List ℕ)
    → lookup name m ≡ none
    → listed name (check_paths now m).1 ≡ false
unfolding check_paths lookup listed
absent-check_paths now [] name e = refl
absent-check_paths now ((k, p) ∷ m) name e = elim (Bool-cases (bytes_beq k name)) [
  | inl hit ↦ absurd (ground (arith, hit, e))
  | inr miss ↦
      listed-add_stale (check_path now p) name k (check_paths now m).1 miss
      ∙ absent-check_paths now m name (ground (arith, miss, e))
]

-- A path with nothing to do stays, and is not listed.
kept-check_paths :
    (now : ℕ) (m : Map (List ℕ) NetPath) (name : List ℕ) (p : NetPath)
    → HasDistinctNames m
    → lookup name m ≡ some p
    → check_path now p ≡ keep
    → (lookup name (check_paths now m).0 ≡ some p) × (listed name (check_paths now m).1 ≡ false)
unfolding check_paths lookup
kept-check_paths now [] name p distinct e idle = absurd cc
kept-check_paths now ((k, q) ∷ m) name p distinct e idle = elim (Bool-cases (bytes_beq k name)) [
  | inl hit ↦
      let same : q ≡ p = ground (arith, hit, e) in
      let key : k ≡ name = (bytes_beq_iff k name).0 hit in
      let gone : lookup name m ≡ none = rw (sym key) distinct.0 in
      (rw (hit, same, idle) refl, rw (same, idle) (absent-check_paths now m name gone))
  | inr miss ↦
      let (stays, out) = kept-check_paths now m name p distinct.1 (ground (arith, miss, e)) idle in
      (rw miss stays, listed-add_stale (check_path now q) name k (check_paths now m).1 miss ∙ out)
]

-- The call ends the program, or the path with this name is as it was before.
abbrev pub EndsOrKeeps : List ℕ → Sender → Run Sender → Type 0
EndsOrKeeps name m panics = Unit
EndsOrKeeps name m (returns m') = lookup name m'.paths ≡ lookup name m.paths

EndsOrKeeps-change :
    (name : List ℕ) (m' m : Sender) (r : Run Sender)
    → lookup name m'.paths ≡ lookup name m.paths
    → EndsOrKeeps name m' r
    → EndsOrKeeps name m r
EndsOrKeeps-change name m' m panics e k = tt
EndsOrKeeps-change name m' m (returns m'') e k = k ∙ e

EndsOrKeeps-bind :
    (name : List ℕ) (m : Sender) (r : Run Sender) (f : Sender → Run Sender)
    → EndsOrKeeps name m r
    → ((m' : Sender) → EndsOrKeeps name m' (f m'))
    → EndsOrKeeps name m (r >>= f)
EndsOrKeeps-bind name m panics f first next = tt
EndsOrKeeps-bind name m (returns m') f first next = EndsOrKeeps-change name m' m _ first (next m')

module _ (can_bind : List ℕ → Bool) where
  recycle_path-other :
      (now : ℕ) (m : Sender) (other name : List ℕ)
      → bytes_beq other name ≡ false
      → EndsOrKeeps name m (recycle_path can_bind now m other)
  unfolding recycle_path
  recycle_path-other now m other name miss = elim (Option-cases (lookup other m.paths)) [
    | inl e ↦ rw (e, recycle_path) refl
    | inr (p, e) ↦ elim (Bool-cases p.closed) [
      | inl gone ↦ rw (e, recycle_path) (rw gone tt)
      | inr open' ↦
          rw (e, recycle_path)
            (rw open'
              (lookup-insert other name (renew can_bind now other p) m.paths ∙ rw miss refl))
    ]
  ]

  recycle_all-unlisted :
      (names : List (List ℕ)) (now : ℕ) (m : Sender) (name : List ℕ)
      → listed name names ≡ false
      → EndsOrKeeps name m (recycle_all can_bind now names m)
  unfolding recycle_all listed
  recycle_all-unlisted [] now m name out = refl
  recycle_all-unlisted (other ∷ names) now m name out =
      let miss : bytes_beq other name ≡ false = ground (arith, out) in
      EndsOrKeeps-bind name m (recycle_path can_bind now m other) _
        (recycle_path-other now m other name miss)
        (λ m'. recycle_all-unlisted names now m' name (ground (arith, out)))

  -- A path that is down after fewer than three recyclings is left as it is by every check of the
  -- paths, whose names are distinct, that does not end the program, however much time has passed.
  pub check_and_recycle_stuck :
      (now : ℕ) (m : Sender) (name : List ℕ) (p : NetPath)
      → HasDistinctNames m.paths
      → lookup name m.paths ≡ some p
      → is_down p.status ≡ true
      → p.recycle_count < recycle_max_attempts
      → EndsOrKeeps name m (check_and_recycle can_bind now m)
  unfolding check_and_recycle check_path
  check_and_recycle_stuck now m name p distinct e off few =
      let idle : check_path now p ≡ keep = ground (arith, off, few) in
      let (stays, out) = kept-check_paths now m.paths name p distinct e idle in
      EndsOrKeeps-change name (record m { paths = (check_paths now m.paths).0 }) m _ (stays ∙ sym e)
        (recycle_all-unlisted (check_paths now m.paths).1 now
          (record m { paths = (check_paths now m.paths).0 }) name out)
