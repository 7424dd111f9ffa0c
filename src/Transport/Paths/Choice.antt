-- ===== src/Transport/Paths/Choice.antt =====
-- selectBestPathLocked of internal/transport/multipath.go: the path that it chooses.
use mpfpv.Prelude.{
  ℕ, ◌≤◌, ◌≡◌, ◌⊎◌, refl, subst, sym, ap, arith, List, [], ◌∷◌, true, false, none, some, ltb,
  Bool-cases, inl, inr, bytes_beq, bytes_beq_iff, bytes_eq,
}
use mpfpv.Prelude.Map.{Map, lookup}
use mpfpv.Server.Pool.{is_named}
use mpfpv.Transport.Paths.{NetPath, is_down, best_path}

-- The map has this path under this name.
abbrev IsEntry : List ℕ → NetPath → Map (List ℕ) NetPath → Type 0
IsEntry name p [] = ⊥
IsEntry name p ((k, q) ∷ rest) = ((k ≡ name) × (q ≡ p)) ⊎ IsEntry name p rest

-- Interfaces have names, and the keys of a Go map are all different.
abbrev pub ArePaths : Map (List ℕ) NetPath → Type 0
ArePaths [] = Unit
ArePaths ((name, p) ∷ rest) = (is_named name ≡ true) × (lookup name rest ≡ none) × ArePaths rest

IsEntry-lookup :
    (m : Map (List ℕ) NetPath) (name : List ℕ) (p : NetPath)
    → lookup name m ≡ some p
    → IsEntry name p m
unfolding lookup
IsEntry-lookup [] name p e = absurd cc
IsEntry-lookup ((k, q) ∷ m) name p e = elim (Bool-cases (bytes_beq k name)) [
  | inl hit ↦
      let key : k ≡ name = (bytes_beq_iff k name).0 hit in
      let same : q ≡ p = ground (arith, hit, e) in inl (key, same)
  | inr miss ↦ inr (IsEntry-lookup m name p (ground (arith, miss, e)))
]

lookup-IsEntry :
    (m : Map (List ℕ) NetPath) (name : List ℕ) (p : NetPath)
    → ArePaths m
    → IsEntry name p m
    → lookup name m ≡ some p
unfolding lookup
lookup-IsEntry [] name p ok i = absurd i
lookup-IsEntry ((k, q) ∷ m) name p ok (inl (key, same)) =
    rw ((bytes_beq_iff k name).1 key) (ap some same)
lookup-IsEntry ((k, q) ∷ m) name p ok (inr i) = elim (Bool-cases (bytes_beq k name)) [
  | inr miss ↦ rw miss (lookup-IsEntry m name p ok.2 i)
  | inl hit ↦
      let key : k ≡ name = (bytes_beq_iff k name).0 hit in
      let gone : lookup name m ≡ none = rw (sym key) ok.1 in
      absurd (cc (lookup-IsEntry m name p ok.2 i, gone))
]

-- The choice among paths from a first candidate: one that is not down, and none that is not down is
-- faster.
record IsChoice (first : List ℕ) (first_rtt : ℕ) (m : Map (List ℕ) NetPath) (chosen : List ℕ)
    : Type 0 where
  rtt : ℕ
  low : rtt ≤ first_rtt
  least : (name : List ℕ) (q : NetPath) → IsEntry name q m → is_down q.status ≡ false → rtt ≤ q.rtt
  from :
      ((chosen ≡ first) × (rtt ≡ first_rtt))
      ⊎ ((p : NetPath) × IsEntry chosen p m × (is_down p.status ≡ false) × (p.rtt ≡ rtt))

skip :
    (first : List ℕ) (first_rtt : ℕ) (k : List ℕ) (q : NetPath) (m : Map (List ℕ) NetPath)
    {chosen : List ℕ}
    → (c : IsChoice first first_rtt m chosen) → (is_down q.status ≡ false → first_rtt ≤ q.rtt)
    → IsChoice first first_rtt ((k, q) ∷ m) chosen
skip first first_rtt k q m {chosen = chosen} c slow = record {
  rtt = c.rtt;
  low = c.low;
  least = least_here;
  from = from_here c.from;
}
  where
    least_here :
        (name : List ℕ) (p : NetPath)
        → IsEntry name p ((k, q) ∷ m)
        → is_down p.status ≡ false
        → c.rtt ≤ p.rtt
    least_here name p (inl (key, same)) on =
        let here : is_down q.status ≡ false = rw same on in
        let slow' = slow here in
        let rtts : q.rtt ≡ p.rtt = ap (λ x. x.rtt) same in omega (arith, c.low, slow', rtts)
    least_here name p (inr i) on = c.least name p i on

    from_here :
        ((chosen ≡ first) × (c.rtt ≡ first_rtt))
          ⊎ ((p : NetPath) × IsEntry chosen p m × (is_down p.status ≡ false) × (p.rtt ≡ c.rtt))
        → ((chosen ≡ first) × (c.rtt ≡ first_rtt))
          ⊎ ((p : NetPath) × IsEntry chosen p ((k, q) ∷ m)
              × (is_down p.status ≡ false)
              × (p.rtt ≡ c.rtt))
    from_here (inl f) = inl f
    from_here (inr (p, i, on, same)) = inr (p, inr i, on, same)

take :
    (first : List ℕ) (first_rtt : ℕ) (k : List ℕ) (q : NetPath) (m : Map (List ℕ) NetPath)
    {chosen : List ℕ}
    → (c : IsChoice k q.rtt m chosen) → is_down q.status ≡ false
    → q.rtt ≤ first_rtt
    → IsChoice first first_rtt ((k, q) ∷ m) chosen
take first first_rtt k q m {chosen = chosen} c on fast = record {
  rtt = c.rtt;
  low = omega (arith, c.low, fast);
  least = least_here;
  from = inr (from_here c.from);
}
  where
    least_here :
        (name : List ℕ) (p : NetPath)
        → IsEntry name p ((k, q) ∷ m)
        → is_down p.status ≡ false
        → c.rtt ≤ p.rtt
    least_here name p (inl (key, same)) on' =
        let rtts : q.rtt ≡ p.rtt = ap (λ x. x.rtt) same in omega (arith, c.low, rtts)
    least_here name p (inr i) on' = c.least name p i on'

    from_here :
        ((chosen ≡ k) × (c.rtt ≡ q.rtt))
          ⊎ ((p : NetPath) × IsEntry chosen p m × (is_down p.status ≡ false) × (p.rtt ≡ c.rtt))
        → (p : NetPath) × IsEntry chosen p ((k, q) ∷ m)
          × (is_down p.status ≡ false)
          × (p.rtt ≡ c.rtt)
    from_here (inl (same, rtt)) = (q, inl (sym same, refl), on, sym rtt)
    from_here (inr (p, i, on', same)) = (p, inr i, on', same)

best_path-IsChoice :
    (m : Map (List ℕ) NetPath) (first : List ℕ) (first_rtt : ℕ)
    → is_named first ≡ true
    → ArePaths m
    → IsChoice first first_rtt m (best_path first first_rtt m)
unfolding best_path
best_path-IsChoice [] first first_rtt named ok = record {
  rtt = first_rtt;
  low = omega arith;
  least = λ name q i off. absurd i;
  from = inl (refl, refl);
}
best_path-IsChoice ((k, q) ∷ m) first first_rtt named ok = elim (Bool-cases (is_down q.status)) [
  | inl off ↦
      rw (off, best_path)
        (skip first first_rtt k q m (best_path-IsChoice m first first_rtt named ok.2)
          (λ on. absurd (cc (off, on))))
  | inr on ↦ elim (Bool-cases (ltb q.rtt first_rtt)) [
    | inl faster ↦
        rw (on, named, faster, best_path)
          (take first first_rtt k q m (best_path-IsChoice m k q.rtt ok.0 ok.2) on (ground arith))
    | inr slower ↦
        rw (on, named, slower, best_path)
          (skip first first_rtt k q m (best_path-IsChoice m first first_rtt named ok.2)
            (λ on'. ground arith))
  ]
]

best_path-IsEntry :
    (m : Map (List ℕ) NetPath) (name : List ℕ) (q : NetPath)
    → ArePaths m
    → IsEntry name q m
    → is_down q.status ≡ false
    → (p : NetPath) × IsEntry (best_path [] 0 m) p m × (is_down p.status ≡ false) × (p.rtt ≤ q.rtt)
unfolding best_path
best_path-IsEntry [] name q ok i on = absurd i
best_path-IsEntry ((k, x) ∷ m) name q ok i on = elim (Bool-cases (is_down x.status)) [
  | inr up ↦
      let c = take k x.rtt k x m (best_path-IsChoice m k x.rtt ok.0 ok.2) up (omega arith) in
      let same : best_path [] 0 ((k, x) ∷ m) ≡ best_path k x.rtt m = rw (up, best_path) refl in
      subst IsGood (sym same) (choice_entry c up)
  | inl off ↦
      let same : best_path [] 0 ((k, x) ∷ m) ≡ best_path [] 0 m = rw (off, best_path) refl in
      subst IsGood (sym same) (rest_entry i off (λ j. best_path-IsEntry m name q ok.2 j on))
]
  where
    IsGood : List ℕ → Type 0
    IsGood chosen =
        (p : NetPath) × IsEntry chosen p ((k, x) ∷ m) × (is_down p.status ≡ false) × (p.rtt ≤ q.rtt)

    choice_entry :
        {chosen : List ℕ}
        → IsChoice k x.rtt ((k, x) ∷ m) chosen
        → is_down x.status ≡ false
        → (p : NetPath) × IsEntry chosen p ((k, x) ∷ m)
          × (is_down p.status ≡ false)
          × (p.rtt ≤ q.rtt)
    choice_entry c up = elim c.from [
      | inl (same, rtt) ↦ (x, inl (sym same, refl), up, omega (arith, c.least name q i on, rtt))
      | inr (p, e, up', rtt) ↦ (p, e, up', omega (arith, c.least name q i on, rtt))
    ]

    rest_entry :
        IsEntry name q ((k, x) ∷ m)
        → is_down x.status ≡ true
        → (IsEntry name q m
            → (p : NetPath) × IsEntry (best_path [] 0 m) p m
              × (is_down p.status ≡ false)
              × (p.rtt ≤ q.rtt))
        → (p : NetPath) × IsEntry (best_path [] 0 m) p ((k, x) ∷ m)
          × (is_down p.status ≡ false)
          × (p.rtt ≤ q.rtt)
    rest_entry (inl (key, same)) off earlier =
        (let up : is_down x.status ≡ false = rw same on in absurd (cc (off, up)))
    rest_entry (inr j) off earlier = let (p, e, up, low) = earlier j in (p, inr e, up, low)

-- If some path of a client is not down, the path that the choice of the best one finds is one of
-- the client's, is not down, and has an RTT that is no larger than that of any path that is not
-- down. The names of the paths are distinct and not empty.
pub best_path-least :
    (m : Map (List ℕ) NetPath) (name : List ℕ) (q : NetPath)
    → ArePaths m
    → lookup name m ≡ some q
    → is_down q.status ≡ false
    → (p : NetPath) × (lookup (best_path [] 0 m) m ≡ some p)
      × (is_down p.status ≡ false)
      × (p.rtt ≤ q.rtt)
best_path-least m name q ok e on =
    let (p, i, up, low) = best_path-IsEntry m name q ok (IsEntry-lookup m name q e) on in
    (p, lookup-IsEntry m _ p ok i, up, low)
