-- ===== src/Bits/Step.antt =====
-- One equation for the lowest digit of `&` and of `|`, from the recursion on binary digits that the
-- native operations stand for.
use Prim.Native.Nat.{min, max, bit_and, bit_or, digits, bitwise, bit_and-bitwise, bit_or-bitwise}
use mpfpv.Prelude.{ℕ, zero, suc, ◌+◌, ◌*◌, ◌/◌, ◌%◌, ◌≤◌, ◌≡◌, refl, arith}

-- Enough fuel is as good as any other.
module _ (stop : ℕ → ℕ) (combine : ℕ → ℕ → ℕ) where
  fuel_irrelevant :
      (x y fuel more : ℕ)
      → x ≤ fuel
      → x ≤ more
      → digits stop combine fuel x y ≡ digits stop combine more x y
  fuel_irrelevant (suc x) y (suc fuel) (suc more) h k =
      rw (fuel_irrelevant (suc x / 2) (y / 2) fuel more (omega arith) (omega arith))
  fuel_irrelevant zero y zero zero h k = refl
  fuel_irrelevant zero y (suc fuel) zero h k = refl
  fuel_irrelevant zero y zero (suc more) h k = refl
  fuel_irrelevant zero y (suc fuel) (suc more) h k = refl
  fuel_irrelevant (suc x) y _ _ h k = absurd (omega arith)

  lowest_digit :
      (x y : ℕ)
      → bitwise stop combine (suc x) y
        ≡ bitwise stop combine (suc x / 2) (y / 2) * 2 + combine (suc x % 2) (y % 2)
  lowest_digit x y =
      let half : suc x / 2 ≤ x = omega arith in
      omega (arith, fuel_irrelevant (suc x / 2) (y / 2) x (suc x / 2) half (omega arith))

pub bit_and_step : (x y : ℕ) → bit_and x y ≡ min (x % 2) (y % 2) + bit_and (x / 2) (y / 2) * 2
bit_and_step zero y = simp bit_and-bitwise (omega arith)
bit_and_step (suc x) y =
    let low = lowest_digit (λ z. 0) min x y in simp bit_and-bitwise (omega (arith, low))

pub bit_or_step : (x y : ℕ) → bit_or x y ≡ max (x % 2) (y % 2) + bit_or (x / 2) (y / 2) * 2
bit_or_step zero y = simp bit_or-bitwise (omega arith)
bit_or_step (suc x) y =
    let low = lowest_digit (λ z. z) max x y in simp bit_or-bitwise (omega (arith, low))
