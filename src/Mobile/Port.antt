-- ===== src/Mobile/Port.antt =====
-- The port of the web interface, as Start of mobile/mobile.go reads it from the address.
pub mod Digits
use mpfpv.Prelude.{
  ℕ, ◌+◌, ◌*◌, ◌-◌, ◌%◌, ◌^◌, ltb, List, [], ◌∷◌, Option, none, some, ◌==◌, if◌then◌else◌,
}
use mpfpv.Prelude.Int.{ℤ, pos, sub_ℕ}

-- The word that an int takes on the target: of 64 bits, or of 32.
pub data Word : Type 0 where
  word64 word32 : Word

abbrev pub word_size : Word → ℕ
word_size word64 = 2 ^ 64
word_size word32 = 2 ^ 32

-- The signed int that a bit pattern stands for: the upper half is negative.
abbrev pub signed : Word → ℕ → ℤ
signed w p = if ltb (p * 2) (word_size w) then pos p else sub_ℕ p (word_size w)

-- p*10 + int(ch-'0') over the characters, on the bit patterns of int.
unfoldable pub port_digits : Word → ℕ → List ℕ → ℕ
port_digits w p [] = p
port_digits w p (c ∷ cs) =
    let size = word_size w in port_digits w ((p * 10 + (c + size - 48)) % size) cs

-- What is behind the last colon.
unfoldable pub after_colon : List ℕ → Option (List ℕ)
after_colon [] = none
after_colon (c ∷ cs) =
    let rest = after_colon cs in
    elim rest [ some tail ↦ some tail | none ↦ if c == 58 then some cs else none ]

-- The machine: the size of its int, and what ranging over a string gives.
pub record Target : Type 0 where
  pub word : Word
  pub runes : List ℕ → List ℕ

-- Without a colon the port stays as it is.
unfoldable pub web_port_of : Target → ℤ → List ℕ → ℤ
web_port_of target port addr = elim (after_colon addr) [
  | none ↦ port
  | some tail ↦ signed target.word (port_digits target.word 0 (target.runes tail))
]
