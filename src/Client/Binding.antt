-- ===== src/Client/Binding.antt =====
-- resolveInterfaceAddr of internal/client/client.go: the address that the client binds its socket to.
-- What the operating system reports of an interface is a parameter: an address is the bytes of its
-- net.IP, and has none if it is of another kind.
use Prim.Native.Nat.{bit_and}
use mpfpv.Prelude.{
  ℕ, List, [], ◌∷◌, Bool, not, ◌&&◌, ◌||◌, Option, none, some, ◌==◌, if◌then◌else◌, length, get_or,
}
use mpfpv.Prelude.Outcome.{Result, ok, err}
use mpfpv.Protocol.Packet.{to4}

pub data BindError : Type 0 where
  interface_not_found addrs_failed no_usable_address : BindError

-- net.IP's To16.
unfoldable pub to16 : List ℕ → Option (List ℕ)
to16 ip =
    if length ip == 4
    then some (0 ∷ 0 ∷ 0 ∷ 0 ∷ 0 ∷ 0 ∷ 0 ∷ 0 ∷ 0 ∷ 0 ∷ 0xff ∷ 0xff ∷ ip)
    else if length ip == 16
    then some ip
    else none

unfoldable pub first_ipv4 : List (List ℕ) → Option (List ℕ)
unfolding to4
first_ipv4 [] = none
first_ipv4 (ip ∷ rest) = elim (to4 ip) [ some ip4 ↦ some ip4 | none ↦ first_ipv4 rest ]

abbrev is_link_local : List ℕ → Bool
is_link_local ip = get_or ip 0 0 == 0xfe && bit_and (get_or ip 1 0) 0xc0 == 0x80

-- Global unicast, or a unique local address.
abbrev is_global : List ℕ → Bool
is_global ip = bit_and (get_or ip 0 0) 0xe0 == 0x20 || bit_and (get_or ip 0 0) 0xfe == 0xfc

unfoldable pub first_ipv6 : List (List ℕ) → Option (List ℕ)
unfolding to16
first_ipv6 [] = none
first_ipv6 (ip ∷ rest) =
    let later = first_ipv6 rest in
    elim (to16 ip) [
      | none ↦ later
      | some ip6 ↦ if not (is_link_local ip6) && is_global ip6 then some ip6 else later
    ]

abbrev or_ipv6 : Option (List ℕ) → Option (List ℕ) → Result BindError (List ℕ)
or_ipv6 (some ip4) other = ok ip4
or_ipv6 none (some ip6) = ok ip6
or_ipv6 none none = err no_usable_address

-- No interface of that name, or an error of Addrs, or its addresses.
unfoldable pub resolve_interface_addr : Option (Option (List (List ℕ))) → Result BindError (List ℕ)
resolve_interface_addr none = err interface_not_found
resolve_interface_addr (some none) = err addrs_failed
resolve_interface_addr (some (some addrs)) = or_ipv6 (first_ipv4 addrs) (first_ipv6 addrs)
