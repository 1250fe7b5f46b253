-- ===== src/Nyansd/LocalIp.antt =====
-- src/nyansd.cpp: `remoteToLocalIP`. The sender's address and the machine's interfaces are what
-- Poco::Net reports, given as arguments.
pub mod Search
pub mod Prefix
pub mod Found
pub mod Origin
use nyan_sd.Base.{
  ℕ, Bool, true, false, Option, none, some, List, [], ◌∷◌, ◌++◌, ◌==◌, ◌||◌, if◌then◌else◌, equal,
  take, length, Bytes,
}
use nyan_sd.ByteBauble.{BbEndianness}
use nyan_sd.Nyansd.Ipv4.{ipv4_string_to_uint}

-- `af()` of an address.
pub data Family : Type 0 where
  af_inet af_inet6 : Family

-- An address with its `toString()`.
pub record Address : Type 0 where
  pub family : Family
  pub text : Bytes

-- A socket address: the family of the host and `toString()`, which has the port in it.
pub record SocketAddress : Type 0 where
  pub family : Family
  pub text : Bytes

abbrev pub is_inet : Family → Bool
is_inet af_inet = true
is_inet af_inet6 = false

-- What stands before the last place of a byte, which `find_last_of` finds.
unfoldable pub before_last : ℕ → Bytes → Option Bytes
before_last c [] = none
before_last c (b ∷ bs) = elim (before_last c bs) [
  | some p ↦ some (b ∷ p)
  | none ↦ if b == c then some [] else none
]

-- `s.erase(s.find_last_of(c) + 1)`: where there is no `c`, `npos + 1` is 0 and all goes.
unfoldable pub erase_after_last : ℕ → Bytes → Bytes
unfolding before_last
erase_after_last c s = elim (before_last c s) [ some p ↦ p ++ c ∷ [] | none ↦ [] ]

-- `if (st != npos) { s.erase(st); }`
unfoldable pub erase_from_last : ℕ → Bytes → Bytes
unfolding before_last
erase_from_last c s = elim (before_last c s) [ some p ↦ p | none ↦ s ]

-- The sender's address without its last part.
unfoldable pub lan_base : SocketAddress → Bytes
lan_base sa =
    if is_inet sa.family then erase_after_last b'.' sa.text else erase_after_last b':' sa.text

-- `addr.compare(0, addr.length(), ip, 0, addr.length()) == 0`
unfoldable pub starts_with : Bytes → Bytes → Bool
starts_with addr ip = equal addr (take (length addr) ip)

-- Does an address of the interface match?
unfoldable pub any_match : Bytes → List Address → Bool
any_match addr [] = false
any_match addr (a ∷ as') = starts_with addr a.text || any_match addr as'

unfoldable pub first_inet : List Address → Option Bytes
first_inet [] = none
first_inet (a ∷ as') = if is_inet a.family then some a.text else first_inet as'

unfoldable pub first_inet6 : List Address → Option Bytes
first_inet6 [] = none
first_inet6 (a ∷ as') = if is_inet a.family then first_inet6 as' else some a.text

-- The two reference parameters after `return true`; `return false`; or an exception that leaves.
pub data LocalIp : Type 0 where
  found : ℕ → Bytes → LocalIp
  missing : LocalIp
  thrown : LocalIp

converted : Option ℕ → Bytes → LocalIp
converted none ipv6 = thrown
converted (some v) ipv6 = found v ipv6

-- The inner loops over the interface that matched. `ipv4` and `ipv6` are what the caller passed.
on_interface : BbEndianness → Family → List Address → ℕ → Bytes → LocalIp
on_interface machine af_inet addresses ipv4 ipv6 = elim (first_inet addresses) [
  | some text ↦ converted (ipv4_string_to_uint machine text) ipv6
  | none ↦ missing
]
on_interface machine af_inet6 addresses ipv4 ipv6 = elim (first_inet6 addresses) [
  | some text ↦ found ipv4 (erase_from_last b'%' text)
  | none ↦ missing
]

pub search_interfaces : BbEndianness → Family → Bytes → List (List Address) → ℕ → Bytes → LocalIp
unfolding on_interface converted
search_interfaces machine family addr [] ipv4 ipv6 = missing
search_interfaces machine family addr (i ∷ is) ipv4 ipv6 =
    let later = search_interfaces machine family addr is ipv4 ipv6 in
    if any_match addr i then on_interface machine family i ipv4 ipv6 else later

unfoldable pub remote_to_local_ip :
    BbEndianness → List (List Address) → SocketAddress → ℕ → Bytes → LocalIp
unfolding search_interfaces
remote_to_local_ip machine interfaces sa ipv4 ipv6 =
    search_interfaces machine sa.family (lan_base sa) interfaces ipv4 ipv6
