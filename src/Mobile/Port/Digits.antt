-- ===== src/Mobile/Port/Digits.antt =====
-- A port that is written in decimal is read back.
use mpfpv.Prelude.{
  ℕ, zero, suc, ◌+◌, ◌-◌, ◌*◌, ◌/◌, ◌%◌, ◌<◌, ◌≡◌, refl, ap, ◌∙◌, arith, List, [], ◌∷◌, ◌++◌, false,
  none, some, ◌==◌, if◌then◌else◌, ltb, Bool-cases, if_true, inl, inr,
}
use mpfpv.Prelude.Int.{ℤ, pos}
use mpfpv.Mobile.Port.{
  Word, word64, word32, word_size, signed, Target, port_digits, after_colon, web_port_of,
}

-- The decimal digits of a number, in front of those that follow.
unfoldable pub decimal : ℕ → ℕ → List ℕ → List ℕ
decimal zero n rest = rest
decimal (suc f) n rest =
    let more = decimal f (n / 10) ((n % 10 + 48) ∷ rest) in
    if ltb n 10 then (n + 48) ∷ rest else more

port_step :
    (w : Word) (p d : ℕ)
    → d < 10
    → p * 10 + d < word_size w
    → (p * 10 + (d + 48 + word_size w - 48)) % word_size w ≡ p * 10 + d
port_step word64 p d h k = omega arith
port_step word32 p d h k = omega arith

port_digits-decimal :
    (w : Word) (f n : ℕ) (rest : List ℕ)
    → n < f
    → n < word_size w
    → port_digits w 0 (decimal f n rest) ≡ port_digits w n rest
unfolding port_digits decimal
port_digits-decimal w zero n rest h k = absurd (omega arith)
port_digits-decimal w (suc f) n rest h k = elim (Bool-cases (ltb n 10)) [
  | inl small ↦ rw small (
      ap (λ p. port_digits w p rest)
        (port_step w 0 n (ground (arith, small)) (omega arith) ∙ omega arith))
  | inr large ↦ rw large (
      port_digits-decimal w f (n / 10) ((n % 10 + 48) ∷ rest) (ground (arith, large)) (omega arith)
      ∙ ap (λ p. port_digits w p rest)
          (port_step w (n / 10) (n % 10) (omega arith) (omega arith) ∙ omega arith))
]

-- No colon among the characters.
abbrev NoColon : List ℕ → Type 0
NoColon [] = Unit
NoColon (c ∷ cs) = ((c == 58) ≡ false) × NoColon cs

after_colon-NoColon : (cs : List ℕ) → NoColon cs → after_colon cs ≡ none
unfolding after_colon
after_colon-NoColon [] h = refl
after_colon-NoColon (c ∷ cs) (h, hs) = rw (after_colon-NoColon cs hs) (rw h refl)

after_colon-append : (host cs : List ℕ) → NoColon cs → after_colon (host ++ 58 ∷ cs) ≡ some cs
unfolding after_colon
after_colon-append [] cs h = rw (after_colon-NoColon cs h) refl
after_colon-append (x ∷ host) cs h = rw (after_colon-append host cs h) refl

decimal-NoColon : (f n : ℕ) (rest : List ℕ) → NoColon rest → NoColon (decimal f n rest)
unfolding decimal
decimal-NoColon zero n rest h = h
decimal-NoColon (suc f) n rest h = elim (Bool-cases (ltb n 10)) [
  | inl small ↦ rw small (ground (arith, small), h)
  | inr large ↦ rw large (decimal-NoColon f (n / 10) ((n % 10 + 48) ∷ rest) (ground arith, h))
]

-- The port of the web interface that Start reads from an address that ends in a colon and a number
-- in decimal is that number, if an int of the target can hold it: below 2 ^ 63, or below 2 ^ 31
-- where an int has 32 bits. It does not matter what is before and what the port was. Of ranging
-- over a string it is used that it gives the digits as they are.
pub web_port_of-decimal :
    (target : Target) (host : List ℕ) (old : ℤ) (n : ℕ)
    → n * 2 < word_size target.word
    → target.runes (decimal (suc n) n []) ≡ decimal (suc n) n []
    → web_port_of target old (host ++ 58 ∷ decimal (suc n) n []) ≡ pos n
unfolding web_port_of port_digits
web_port_of-decimal target host old n small ascii =
    rw
      (
        after_colon-append host (decimal (suc n) n []) (decimal-NoColon (suc n) n [] tt),
        web_port_of,
      )
      (ap (signed target.word) (
          ap (port_digits target.word 0) ascii
          ∙ port_digits-decimal target.word (suc n) n [] (omega arith) (omega arith))
        ∙ if_true (ltb (n * 2) (word_size target.word)) (pos n) _ (ground (arith, small)))
