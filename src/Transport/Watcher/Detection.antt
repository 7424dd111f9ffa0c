-- ===== src/Transport/Watcher/Detection.antt =====
-- What detectChanges of internal/transport/iface.go reports of one name.
use mpfpv.Prelude.{
  ℕ, ◌≡◌, refl, sym, ◌∙◌, ap, arith, List, [], ◌∷◌, ◌++◌, Bool, true, false, not, ◌&&◌, ◌||◌,
  Option, none, some, Bool-cases, Option-cases, inl, inr, bytes_beq, bytes_beq_iff, bytes_eq,
}
use mpfpv.Prelude.Map.{Map, lookup}
use mpfpv.Transport.Changes.{InterfaceInfo, local_addr_of}
use mpfpv.Transport.Watcher.{missing, changed_infos, same_info, detect_changes}

-- The interfaces of a scan: each under its own name, and each name once.
abbrev pub AreInterfaces : Map (List ℕ) InterfaceInfo → Type 0
AreInterfaces [] = Unit
AreInterfaces ((name, info) ∷ rest) =
    (info.name ≡ name) × (lookup name rest ≡ none) × AreInterfaces rest

abbrev pub is_some {ℓ} : {A : Type ℓ} → Option A → Bool
is_some none = false
is_some (some a) = true

abbrev pub listed_info : List ℕ → List InterfaceInfo → Bool
listed_info name [] = false
listed_info name (info ∷ rest) = bytes_beq info.name name || listed_info name rest

-- The interface has an address of the server's family.
abbrev pub reaches : Bool → Option InterfaceInfo → Bool
reaches v4 none = false
reaches v4 (some info) = is_some (local_addr_of v4 info)

abbrev pub lists_reaching : Bool → List ℕ → List InterfaceInfo → Bool
lists_reaching v4 name [] = false
lists_reaching v4 name (info ∷ rest) =
    bytes_beq info.name name && reaches v4 (some info) || lists_reaching v4 name rest

abbrev pub differ : Option InterfaceInfo → Option InterfaceInfo → Bool
differ (some new) (some old) = not (same_info old new)
differ (some new) none = false
differ none old = false

listed-append :
    (name : List ℕ) (xs ys : List InterfaceInfo)
    → listed_info name (xs ++ ys) ≡ (listed_info name xs || listed_info name ys)
listed-append name [] ys = refl
listed-append name (x ∷ xs) ys = ground (arith, listed-append name xs ys)

reaching-append :
    (v4 : Bool) (name : List ℕ) (xs ys : List InterfaceInfo)
    → lists_reaching v4 name (xs ++ ys) ≡ (lists_reaching v4 name xs || lists_reaching v4 name ys)
reaching-append v4 name [] ys = refl
reaching-append v4 name (x ∷ xs) ys = ground (arith, reaching-append v4 name xs ys)

lookup-name :
    (m : Map (List ℕ) InterfaceInfo) (name : List ℕ) (info : InterfaceInfo)
    → AreInterfaces m
    → lookup name m ≡ some info
    → info.name ≡ name
unfolding lookup
lookup-name [] name info valid e = absurd cc
lookup-name ((k, i) ∷ m) name info (named, fresh, valid) e = elim (Bool-cases (bytes_beq k name)) [
  | inl hit ↦
      let same : i ≡ info = ground (arith, hit, e) in
      sym (ap (λ (x : InterfaceInfo). x.name) same) ∙ named ∙ (bytes_beq_iff k name).0 hit
  | inr miss ↦ lookup-name m name info valid (ground (arith, miss, e))
]

missing-listed :
    (m other : Map (List ℕ) InterfaceInfo) (name : List ℕ)
    → AreInterfaces m
    → listed_info name (missing m other)
      ≡ (is_some (lookup name m) && not (is_some (lookup name other)))
unfolding missing lookup
missing-listed [] other name valid = refl
missing-listed ((k, info) ∷ m) other name (named, fresh, valid) =
    let rest = missing-listed m other name valid in
    elim (Bool-cases (bytes_beq k name)) [
      | inl hit ↦
          let key : k ≡ name = (bytes_beq_iff k name).0 hit in
          let own : bytes_beq info.name name ≡ true =
            (bytes_beq_iff info.name name).1 (named ∙ key) in
          let same : lookup k other ≡ lookup name other = ap (λ n. lookup n other) key in
          let gone : lookup name m ≡ none = ap (λ n. lookup n m) (sym key) ∙ fresh in
          ground (arith, hit, own, same, gone, rest)
      | inr miss ↦
          let other' : bytes_beq info.name name ≡ false = ap (λ n. bytes_beq n name) named ∙ miss in
          ground (arith, miss, other', rest)
    ]

missing-reaching :
    (v4 : Bool) (m other : Map (List ℕ) InterfaceInfo) (name : List ℕ)
    → AreInterfaces m
    → lists_reaching v4 name (missing m other)
      ≡ (reaches v4 (lookup name m) && not (is_some (lookup name other)))
unfolding missing lookup
missing-reaching v4 [] other name valid = refl
missing-reaching v4 ((k, info) ∷ m) other name (named, fresh, valid) =
    let rest = missing-reaching v4 m other name valid in
    elim (Bool-cases (bytes_beq k name)) [
      | inl hit ↦
          let key : k ≡ name = (bytes_beq_iff k name).0 hit in
          let own : bytes_beq info.name name ≡ true =
            (bytes_beq_iff info.name name).1 (named ∙ key) in
          let same : lookup k other ≡ lookup name other = ap (λ n. lookup n other) key in
          let gone : lookup name m ≡ none = ap (λ n. lookup n m) (sym key) ∙ fresh in
          ground (arith, hit, own, same, gone, rest)
      | inr miss ↦
          let other' : bytes_beq info.name name ≡ false = ap (λ n. bytes_beq n name) named ∙ miss in
          ground (arith, miss, other', rest)
    ]

changed-listed :
    (m current : Map (List ℕ) InterfaceInfo) (name : List ℕ)
    → AreInterfaces m
    → AreInterfaces current
    → listed_info name (changed_infos m current).0 ≡ differ (lookup name m) (lookup name current)
unfolding changed_infos lookup
changed-listed [] current name valid before = refl
changed-listed ((k, info) ∷ m) current name (named, fresh, valid) before =
    let rest = changed-listed m current name valid before in
    elim (Option-cases (lookup k current)) [
      | inl none' ↦ elim (Bool-cases (bytes_beq k name)) [
        | inl hit ↦
            let key : k ≡ name = (bytes_beq_iff k name).0 hit in
            let same : lookup k current ≡ lookup name current = ap (λ n. lookup n current) key in
            let gone : lookup name m ≡ none = ap (λ n. lookup n m) (sym key) ∙ fresh in
            ground (arith, hit, same, none', gone, rest)
        | inr miss ↦ ground (arith, miss, none', rest)
      ]
      | inr (old, known) ↦
          let old_name : old.name ≡ k = lookup-name current k old before known in
          let own : bytes_beq old.name name ≡ bytes_beq k name =
            ap (λ n. bytes_beq n name) old_name in
          elim (Bool-cases (bytes_beq k name)) [
            | inl hit ↦
                let key : k ≡ name = (bytes_beq_iff k name).0 hit in
                let same : lookup k current ≡ lookup name current =
                  ap (λ n. lookup n current) key in
                let gone : lookup name m ≡ none = ap (λ n. lookup n m) (sym key) ∙ fresh in
                ground (arith, hit, same, known, gone, own, rest)
            | inr miss ↦ ground (arith, miss, known, own, rest)
          ]
    ]

changed-reaching :
    (v4 : Bool) (m current : Map (List ℕ) InterfaceInfo) (name : List ℕ)
    → AreInterfaces m
    → lists_reaching v4 name (changed_infos m current).1
      ≡ (reaches v4 (lookup name m) && differ (lookup name m) (lookup name current))
unfolding changed_infos lookup
changed-reaching v4 [] current name valid = refl
changed-reaching v4 ((k, info) ∷ m) current name (named, fresh, valid) =
    let rest = changed-reaching v4 m current name valid in
    elim (Bool-cases (bytes_beq k name)) [
      | inl hit ↦
          let key : k ≡ name = (bytes_beq_iff k name).0 hit in
          let own : bytes_beq info.name name ≡ true =
            (bytes_beq_iff info.name name).1 (named ∙ key) in
          let same : lookup k current ≡ lookup name current = ap (λ n. lookup n current) key in
          let gone : lookup name m ≡ none = ap (λ n. lookup n m) (sym key) ∙ fresh in
          ground (arith, hit, own, same, gone, rest)
      | inr miss ↦
          let other' : bytes_beq info.name name ≡ false = ap (λ n. bytes_beq n name) named ∙ miss in
          ground (arith, miss, other', rest)
    ]

-- What is reported of a name: removed if it is gone or has changed, added if it is new or has
-- changed.
pub detect_changes_removed :
    (current new : Map (List ℕ) InterfaceInfo) (name : List ℕ)
    → AreInterfaces current
    → AreInterfaces new
    → listed_info name (detect_changes current new).1 ≡ (
        is_some (lookup name current) && not (is_some (lookup name new))
        || differ (lookup name new) (lookup name current))
unfolding detect_changes
detect_changes_removed current new name before after =
    listed-append name (missing current new) (changed_infos new current).0
    ∙ rw (missing-listed current new name before, changed-listed new current name after before) refl

pub detect_changes_added :
    (v4 : Bool) (current new : Map (List ℕ) InterfaceInfo) (name : List ℕ)
    → AreInterfaces new
    → lists_reaching v4 name (detect_changes current new).0 ≡ (
        reaches v4 (lookup name new) && not (is_some (lookup name current))
        || reaches v4 (lookup name new) && differ (lookup name new) (lookup name current))
unfolding detect_changes
detect_changes_added v4 current new name after =
    reaching-append v4 name (missing new current) (changed_infos new current).1
    ∙ rw (missing-reaching v4 new current name after, changed-reaching v4 new current name after)
        refl
