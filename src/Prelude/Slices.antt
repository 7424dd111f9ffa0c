-- ===== src/Prelude/Slices.antt =====
-- Go byte slices: reads that panic out of range, and writes in place.
use mpfpv.Prelude.Lists.{length, length-append, get_elem?, set, take, drop}
use mpfpv.Prelude.Tests.{leb, if◌then◌else◌}
use mpfpv.Prelude.Outcome.{Run, returns, panics}
use Prim.Native.Nat.{ℕ, suc, ◌+◌, ◌-◌, ◌≤◌}
use mathlib.Core.Path.{◌≡◌, refl, ap, ◌∙◌}
use mathlib.Core.Bool.{◌&&◌}
use mathlib.Core.Option.{Option, none, some}
use mathlib.Core.List.{List, [], ◌∷◌, ◌++◌, append_assoc}
use native.Mathlib.Omega.{arith}

abbrev or_panic {ℓ} : {A : Type ℓ} → Option A → Run A
or_panic none = panics
or_panic (some a) = returns a

-- b[i]
unfoldable pub index : List ℕ → ℕ → Run ℕ
index b i = or_panic (get_elem? b i)

-- b[i:j]
unfoldable pub slice : List ℕ → ℕ → ℕ → Run (List ℕ)
slice b i j = if leb i j && leb j (length b) then returns (take (j - i) (drop i b)) else panics

-- copy(b[i:], bs): what does not fit is not written.
abbrev pub put : List ℕ → ℕ → List ℕ → List ℕ
put b i [] = b
put b i (x ∷ xs) = put (set b i x) (i + 1) xs

get_elem?-append : (xs ys : List ℕ) (k : ℕ) → get_elem? (xs ++ ys) (length xs + k) ≡ get_elem? ys k
get_elem?-append [] ys k = let e : 0 + k ≡ k = omega arith in rw e
get_elem?-append (x ∷ xs) ys k =
    let e : suc (length xs) + k ≡ suc (length xs + k) = omega arith in
    rw e (get_elem?-append xs ys k)

pub index-append :
    (xs ys : List ℕ) (pos k : ℕ) → pos ≡ length xs + k → index (xs ++ ys) pos ≡ index ys k
unfolding index
index-append xs ys pos k e = rw (e, get_elem?-append xs ys k)

set-append : (xs ys : List ℕ) (y v : ℕ) → set (xs ++ y ∷ ys) (length xs) v ≡ xs ++ v ∷ ys
set-append [] ys y v = refl
set-append (x ∷ xs) ys y v = ap (◌∷◌ x) (set-append xs ys y v)

-- Writing behind `xs` replaces the bytes that stand there.
pub put-append :
    (bs xs ys : List ℕ) (pos : ℕ)
    → pos ≡ length xs
    → length bs ≤ length ys
    → put (xs ++ ys) pos bs ≡ xs ++ (bs ++ drop (length bs) ys)
put-append [] xs ys pos e h = refl
put-append (b ∷ bs) xs [] pos e h = absurd (omega arith)
put-append (b ∷ bs) xs (y ∷ ys) pos e h =
    rw (e, set-append xs ys y b)
      (rw (← append_assoc xs (b ∷ []) ys) (
        put-append bs (xs ++ b ∷ []) ys (length xs + 1) (omega (arith, length-append xs (b ∷ [])))
          (omega arith)
        ∙ append_assoc xs (b ∷ []) (bs ++ drop (length bs) ys)))
