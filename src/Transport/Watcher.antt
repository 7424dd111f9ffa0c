-- ===== src/Transport/Watcher.antt =====
-- internal/transport/iface.go: which interfaces of the machine are used, and what has changed since the
-- last look. What the operating system reports of its interfaces is a parameter.
pub mod Detection
pub mod Scanning
pub mod Following
use Prim.Native.Nat.{bit_and}
use mpfpv.Prelude.{
  ℕ, suc, List, [], ◌∷◌, ◌++◌, Bool, true, false, not, ◌&&◌, ◌||◌, Option, none, some, ◌==◌, ltb,
  leb, if◌then◌else◌, length, get_or, bytes_beq, bytes_eq,
}
use mpfpv.Prelude.Map.{Map, lookup, insert}
use mpfpv.Protocol.Packet.{to4}
use mpfpv.Transport.Changes.{InterfaceInfo}

-- A net.Interface with its addresses: `none` stands for an error of Addrs, and an address that is
-- neither an *net.IPNet nor an *net.IPAddr has no bytes.
pub record OsInterface : Type 0 where
  pub name : List ℕ
  pub is_loopback : Bool
  pub is_up : Bool
  pub addrs : Option (List (List ℕ))

-- "eth", "enp", "ens", "eno", "enx", "wlan", "wlp", "wlx", "usb"
abbrev linux_prefixes : List (List ℕ)
linux_prefixes =
    (101 ∷ 116 ∷ 104 ∷ [])
    ∷ (101 ∷ 110 ∷ 112 ∷ [])
    ∷ (101 ∷ 110 ∷ 115 ∷ [])
    ∷ (101 ∷ 110 ∷ 111 ∷ [])
    ∷ (101 ∷ 110 ∷ 120 ∷ [])
    ∷ (119 ∷ 108 ∷ 97 ∷ 110 ∷ [])
    ∷ (119 ∷ 108 ∷ 112 ∷ [])
    ∷ (119 ∷ 108 ∷ 120 ∷ [])
    ∷ (117 ∷ 115 ∷ 98 ∷ [])
    ∷ []

-- "Wi-Fi", "WiFi", "Wireless", "WLAN", "Ethernet", "以太网", "USB", in UTF-8.
abbrev win_keywords : List (List ℕ)
win_keywords =
    (87 ∷ 105 ∷ 45 ∷ 70 ∷ 105 ∷ [])
    ∷ (87 ∷ 105 ∷ 70 ∷ 105 ∷ [])
    ∷ (87 ∷ 105 ∷ 114 ∷ 101 ∷ 108 ∷ 101 ∷ 115 ∷ 115 ∷ [])
    ∷ (87 ∷ 76 ∷ 65 ∷ 78 ∷ [])
    ∷ (69 ∷ 116 ∷ 104 ∷ 101 ∷ 114 ∷ 110 ∷ 101 ∷ 116 ∷ [])
    ∷ (228 ∷ 187 ∷ 165 ∷ 229 ∷ 164 ∷ 170 ∷ 231 ∷ 189 ∷ 145 ∷ [])
    ∷ (85 ∷ 83 ∷ 66 ∷ [])
    ∷ []

abbrev has_prefix : List ℕ → List ℕ → Bool
has_prefix name [] = true
has_prefix [] (c ∷ cs) = false
has_prefix (a ∷ name) (c ∷ cs) = a == c && has_prefix name cs

-- strings.Contains
abbrev contains_bytes : List ℕ → List ℕ → Bool
contains_bytes [] kw = has_prefix [] kw
contains_bytes (a ∷ name) kw = has_prefix (a ∷ name) kw || contains_bytes name kw

abbrev any_prefix : List ℕ → List (List ℕ) → Bool
any_prefix name [] = false
any_prefix name (p ∷ rest) = has_prefix name p || any_prefix name rest

abbrev any_keyword : List ℕ → List (List ℕ) → Bool
any_keyword name [] = false
any_keyword name (kw ∷ rest) = contains_bytes name kw || any_keyword name rest

-- The last test is that of macOS, "en".
unfoldable pub is_physical_interface : List ℕ → Bool
is_physical_interface name =
    any_prefix name linux_prefixes
    || any_keyword name win_keywords
    || has_prefix name (101 ∷ 110 ∷ [])

-- Link-local, the carriers' own range, and the range of the virtual network are left out.
abbrev is_usable4 : List ℕ → Bool
is_usable4 ip =
    let a : ℕ = get_or ip 0 0 in
    let b : ℕ = get_or ip 1 0 in
    not (a == 169 && b == 254)
    && not (a == 100 && (leb 64 b && leb b 127))
    && not (a == 10 && b == 99)

abbrev ipv6_loopback : List ℕ
ipv6_loopback = 0 ∷ 0 ∷ 0 ∷ 0 ∷ 0 ∷ 0 ∷ 0 ∷ 0 ∷ 0 ∷ 0 ∷ 0 ∷ 0 ∷ 0 ∷ 0 ∷ 0 ∷ 1 ∷ []

-- An address of sixteen bytes that is not IPv4: global unicast or unique local.
abbrev is_usable6 : List ℕ → Bool
is_usable6 ip =
    let a : ℕ = get_or ip 0 0 in
    let b : ℕ = get_or ip 1 0 in
    length ip == 16
    && not (a == 0xfe && bit_and b 0xc0 == 0x80)
    && not (bytes_beq ip ipv6_loopback)
    && (bit_and a 0xe0 == 0x20 || bit_and a 0xfe == 0xfc)

-- The addresses of IPv4 and of IPv6 that are used, in their order.
unfoldable pub scan_addrs : List (List ℕ) → List (List ℕ) × List (List ℕ)
unfolding to4
scan_addrs [] = ([], [])
scan_addrs (ip ∷ rest) =
    let (ipv4s, ipv6s) = scan_addrs rest in
    elim (to4 ip) [
      | some ip4 ↦ if is_usable4 ip4 then (ip4 ∷ ipv4s, ipv6s) else (ipv4s, ipv6s)
      | none ↦ if is_usable6 ip then (ipv4s, ip ∷ ipv6s) else (ipv4s, ipv6s)
    ]

abbrev some_addrs : List ℕ → List (List ℕ) × List (List ℕ) → Option InterfaceInfo
some_addrs name ([], []) = none
some_addrs name (ip ∷ ipv4s, ipv6s) =
    some (record { name = name; addrs = ip ∷ ipv4s; addrs6 = ipv6s; is_up = true })
some_addrs name ([], ip ∷ ipv6s) =
    some (record { name = name; addrs = []; addrs6 = ip ∷ ipv6s; is_up = true })

abbrev is_excluded : List ℕ → List (List ℕ) → Bool
is_excluded name [] = false
is_excluded name (e ∷ rest) = bytes_beq e name || is_excluded name rest

abbrev pub add_scanned :
    Option InterfaceInfo → Map (List ℕ) InterfaceInfo → Map (List ℕ) InterfaceInfo
add_scanned none result = result
add_scanned (some info) result = insert info.name info result

module _ (excluded : List (List ℕ)) where
  -- The entry of an interface, or `none` where the loop goes on to the next.
  unfoldable pub scan_interface : OsInterface → Option InterfaceInfo
  scan_interface iface =
      if is_excluded iface.name excluded
        || not (is_physical_interface iface.name)
        || iface.is_loopback
        || not iface.is_up
      then none
      else elim iface.addrs [ none ↦ none | some ips ↦ some_addrs iface.name (scan_addrs ips) ]

  abbrev pub scan_list : List OsInterface → Map (List ℕ) InterfaceInfo → Map (List ℕ) InterfaceInfo
  scan_list [] result = result
  scan_list (iface ∷ rest) result = scan_list rest (add_scanned (scan_interface iface) result)

  -- An error of net.Interfaces gives a nil map, which is empty.
  unfoldable pub scan_interfaces : Option (List OsInterface) → Map (List ℕ) InterfaceInfo
  scan_interfaces none = []
  scan_interfaces (some ifaces) = scan_list ifaces []

-- set[ip.String()]: the texts of two addresses of a family are equal only if the addresses are.
unfoldable pub all_in : List (List ℕ) → List (List ℕ) → Bool
all_in a [] = true
all_in a (ip ∷ rest) = is_excluded ip a && all_in a rest

unfoldable pub same_addrs : List (List ℕ) → List (List ℕ) → Bool
same_addrs a b = if length a == length b then all_in a b else false

abbrev pub same_info : InterfaceInfo → InterfaceInfo → Bool
same_info old new = same_addrs old.addrs new.addrs && same_addrs old.addrs6 new.addrs6

-- The entries of the first map whose names the second has not.
unfoldable pub missing :
    Map (List ℕ) InterfaceInfo → Map (List ℕ) InterfaceInfo → List InterfaceInfo
missing [] other = []
missing ((name, info) ∷ rest) other =
    let later = missing rest other in
    elim (lookup name other) [ none ↦ info ∷ later | some found ↦ later ]

-- The entries with other addresses than before, as they were and as they are.
unfoldable pub changed_infos :
    Map (List ℕ) InterfaceInfo
    → Map (List ℕ) InterfaceInfo
    → List InterfaceInfo × List InterfaceInfo
changed_infos [] current = ([], [])
changed_infos ((name, info) ∷ rest) current =
    let (olds, news) = changed_infos rest current in
    elim (lookup name current) [
      | none ↦ (olds, news)
      | some old ↦ if same_info old info then (olds, news) else (old ∷ olds, info ∷ news)
    ]

-- What is added and what is removed, for the callback.
unfoldable pub detect_changes :
    Map (List ℕ) InterfaceInfo
    → Map (List ℕ) InterfaceInfo
    → List InterfaceInfo × List InterfaceInfo
detect_changes current new =
    let (olds, news) = changed_infos new current in
    (missing new current ++ news, missing current new ++ olds)
