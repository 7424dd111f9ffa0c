-- ===== src/Transport/Output/Copies.antt =====
-- Send of internal/transport/multipath.go in redundant mode: a copy over every path that is not down.
use mpfpv.Prelude.{
  ℕ, ◌+◌, ◌%◌, ◌^◌, length, ◌≡◌, refl, ap, arith, List, [], ◌∷◌, Bool, true, false, none, some,
  ◌==◌, if◌then◌else◌, Bool-cases, inl, inr,
}
use mpfpv.Prelude.Map.{Map}
use mpfpv.Protocol.Packet.{send_mode_failover}
use mpfpv.Transport.Paths.{Sender, NetPath, suspect, is_down}
use mpfpv.Transport.Output.{send_redundant, send, send_over, send_modes, all_failed_or_down}

-- The names of the paths that are not down.
unfoldable pub usable : Map (List ℕ) NetPath → List (List ℕ)
usable [] = []
usable ((name, p) ∷ rest) = let more = usable rest in if is_down p.status then more else name ∷ more

abbrev pub copies : List ℕ → List (List ℕ) → List (List ℕ × List ℕ)
copies bytes [] = []
copies bytes (name ∷ names) = (name, bytes) ∷ copies bytes names

module _ (write_ok : List ℕ → Bool) (bytes : List ℕ) where
  abbrev pub any_ok : List (List ℕ) → Bool
  any_ok [] = false
  any_ok (name ∷ names) = if write_ok name then true else any_ok names

  -- What becomes of a path: its bytes are counted, or it is suspect; a path that is down stays.
  abbrev pub outcome : List ℕ → NetPath → NetPath
  outcome name p =
      if is_down p.status
      then p
      else if write_ok name
      then record p { tx_bytes = (p.tx_bytes + length bytes) % 2 ^ 64 }
      else record p { status = suspect }

  abbrev pub outcomes : Map (List ℕ) NetPath → Map (List ℕ) NetPath
  outcomes [] = []
  outcomes ((name, p) ∷ rest) = (name, outcome name p) ∷ outcomes rest

  send_redundant_lem :
      (paths : Map (List ℕ) NetPath)
      → ((send_redundant write_ok bytes paths).0 ≡ outcomes paths)
        × ((send_redundant write_ok bytes paths).1 ≡ copies bytes (usable paths))
        × (((send_redundant write_ok bytes paths).2 == 0)
            ≡ (if any_ok (usable paths) then false else true))
  unfolding send_redundant usable
  send_redundant_lem [] = (refl, refl, refl)
  send_redundant_lem ((name, p) ∷ rest) =
      let (paths, out, n) = send_redundant_lem rest in
      elim (Bool-cases (is_down p.status)) [
        | inl off ↦ rw (off, send_redundant) (rw (paths, out) (refl, refl, n))
        | inr on ↦ elim (Bool-cases (write_ok name)) [
          | inl good ↦
              rw (on, good, send_redundant) (rw (paths, out) (refl, refl, ground (arith, good)))
          | inr bad ↦
              rw (on, bad, send_redundant) (rw (paths, out) (refl, refl, ground (arith, n, bad)))
        ]
      ]

  -- In redundant mode, a client that has a path hands one copy of a packet to each path that is
  -- not down, in their order, and to no other; the bytes are counted on the paths whose write
  -- succeeds, the others become suspect, paths that are down stay as they are, and there is an
  -- error exactly if no write succeeds.
  pub send-copies :
      (m : Sender) (name : List ℕ) (p : NetPath) (rest : Map (List ℕ) NetPath)
      → m.paths ≡ (name, p) ∷ rest
      → (m.send_mode == send_mode_failover) ≡ false
      → ((send write_ok bytes m).0 ≡ outcomes m.paths)
        × ((send write_ok bytes m).1 ≡ copies bytes (usable m.paths))
        × ((send write_ok bytes m).2
            ≡ (if any_ok (usable m.paths) then none else some all_failed_or_down))
  unfolding send
  send-copies m name p rest e redundant =
      let (paths, out, n) = send_redundant_lem m.paths in
      let over : send write_ok bytes m ≡ send_modes write_ok bytes m =
        ap (send_over write_ok bytes m) e in
      rw over (rw redundant (paths, out, ground (arith, n)))
