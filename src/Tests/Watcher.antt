-- ===== src/Tests/Watcher.antt =====
-- Scans of internal/transport/iface.go: an interface that comes, and one that gets another address.
use mpfpv.Prelude.{
  ℕ, ◌≡◌, refl, List, [], ◌∷◌, Bool, true, false, Option, some, bytes_beq, Bool-cases, inl, inr,
}
use mpfpv.Prelude.Map.{lookup, insert}
use mpfpv.Prelude.Outcome.{returns}
use mpfpv.Protocol.Packet.{to4}
use mpfpv.Transport.Paths.{Sender}
use mpfpv.Transport.Changes.{on_interface_change}
use mpfpv.Transport.Watcher.{
  OsInterface, scan_interfaces, scan_interface, scan_addrs, is_physical_interface, detect_changes,
  same_addrs, all_in,
}
use mpfpv.Transport.Watcher.Following.{Follows, detect_changes-Follows}
use mpfpv.Tests.Transport.{sender, slow}

-- "eth0" and "wlan0"
abbrev eth : List ℕ
eth = 101 ∷ 116 ∷ 104 ∷ 48 ∷ []

abbrev wlan : List ℕ
wlan = 119 ∷ 108 ∷ 97 ∷ 110 ∷ 48 ∷ []

abbrev wired : List ℕ → OsInterface
wired ip = record { name = eth; is_loopback = false; is_up = true; addrs = some (ip ∷ []) }

abbrev wireless : OsInterface
wireless = record (wired (192 ∷ 168 ∷ 1 ∷ 7 ∷ [])) { name = wlan }

abbrev last : Option (List OsInterface)
last = some (wired (10 ∷ 0 ∷ 0 ∷ 4 ∷ []) ∷ [])

abbrev next : Option (List OsInterface)
next = some (wired (10 ∷ 0 ∷ 0 ∷ 5 ∷ []) ∷ wireless ∷ [])

-- One path, on the wire.
abbrev idle : Sender
idle = record sender { paths = (eth, slow) ∷ [] }

one_path : Follows true idle (scan_interfaces [] last)
unfolding lookup scan_interfaces scan_interface scan_addrs is_physical_interface to4 insert
    bytes_beq
one_path name = elim (Bool-cases (bytes_beq eth name)) [
  | inl hit ↦ rw hit refl
  | inr miss ↦ rw miss refl
]

detect_changes-Follows_example :
    (m' : Sender) × (heartbeat : Bool) × (on_interface_change true
        (λ a name. true)
        50
        (detect_changes (scan_interfaces [] last) (scan_interfaces [] next)).0
        (detect_changes (scan_interfaces [] last) (scan_interfaces [] next)).1
        idle
      ≡ returns (m', heartbeat))
    × Follows true m' (scan_interfaces [] next)
detect_changes-Follows_example =
    detect_changes-Follows true (λ a name. true) 50 [] last next idle (λ a name. refl) (refl, tt)
      one_path

-- Two lists of one length with other addresses.
same_addrs_repeated : same_addrs ((1 ∷ []) ∷ (2 ∷ []) ∷ []) ((1 ∷ []) ∷ (1 ∷ []) ∷ []) ≡ true
unfolding same_addrs all_in bytes_beq
same_addrs_repeated = refl
