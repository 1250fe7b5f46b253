-- ===== src/Nyansd/LocalIp/Origin.antt =====
-- From which interface the address that `remoteToLocalIP` returns comes.
use nyan_sd.Base.{ℕ, ◌≡◌, ◌≢◌, refl, none, List, [], ◌∷◌, ◌++◌, All, Bytes, arith, ◌==◌, false}
use nyan_sd.ByteBauble.{BbEndianness}
use nyan_sd.Nyansd.LocalIp.{
  Family, af_inet, af_inet6, Address, before_last, lan_base, found, remote_to_local_ip,
}
use nyan_sd.Nyansd.LocalIp.Prefix.{erase_after_last-append}
use nyan_sd.Nyansd.LocalIp.Found.{OnNetwork, starts_with-OnNetwork}
use nyan_sd.Nyansd.LocalIp.Search.{
  AnyAddress, AnyInterface, AnyAddress-map, AnyInterface-map, Own, search_interfaces-Own,
}

-- What stands between the network part of an address and the rest.
abbrev pub separator : Family → ℕ
separator af_inet = b'.'
separator af_inet6 = b':'

-- The byte does not occur.
abbrev pub IsWithout : ℕ → Bytes → Type 0
IsWithout c s = All (λ b. b ≢ c) s

-- The interface has an address whose text begins with this, and the result is one of its own.
abbrev pub Answers : BbEndianness → Family → Bytes → ℕ → Bytes → ℕ → Bytes → List Address → Type 0
Answers machine family network ipv4 ipv6 v4 v6 i =
    AnyAddress (OnNetwork network) i × Own machine family ipv4 ipv6 v4 v6 i

pub before_last-IsWithout : (c : ℕ) (s : Bytes) → IsWithout c s → before_last c s ≡ none
unfolding before_last
before_last-IsWithout c [] h = refl
before_last-IsWithout c (b ∷ s) (h, hs) =
    let differs : (b == c) ≡ false = ground (arith, h) in
    rw (before_last-IsWithout c s hs, before_last, differs)

lan_base-network :
    (family : Family) (net host : Bytes)
    → IsWithout (separator family) host
    → lan_base (record { family = family; text = net ++ (separator family ∷ host) })
      ≡ net ++ separator family ∷ []
unfolding lan_base
lan_base-network af_inet net host h =
    erase_after_last-append b'.' net host (before_last-IsWithout b'.' host h)
lan_base-network af_inet6 net host h =
    erase_after_last-append b':' net host (before_last-IsWithout b':' host h)

-- The sender's address is `net`, a separator, and `host` without one: a dot for an IPv4 address,
-- else a colon. If the search succeeds, there is an interface with an address that begins with
-- `net` and the separator, and the result is an address of that same interface: for a sender with
-- an IPv4 address the number of an IPv4 address, with the IPv6 parameter unchanged; for any other
-- the text of an IPv6 address up to its scope, with the IPv4 parameter unchanged.
pub remote_to_local_ip-Answers :
    (machine : BbEndianness) (interfaces : List (List Address)) (family : Family) (net host : Bytes)
    (ipv4 : ℕ) (ipv6 : Bytes) (v4 : ℕ) (v6 : Bytes)
    → IsWithout (separator family) host
    → remote_to_local_ip machine interfaces
        (record { family = family; text = net ++ (separator family ∷ host) })
        ipv4
        ipv6
      ≡ found v4 v6
    → AnyInterface
        (Answers machine family (net ++ separator family ∷ []) ipv4 ipv6 v4 v6)
        interfaces
unfolding remote_to_local_ip
remote_to_local_ip-Answers machine interfaces family net host ipv4 ipv6 v4 v6 h e =
    let network = net ++ separator family ∷ [] in
    AnyInterface-map _ _
      (λ i (near, own). (AnyAddress-map _ _ (λ a. (starts_with-OnNetwork network a).0) i near, own))
      interfaces
      (search_interfaces-Own machine family network interfaces ipv4 ipv6 v4 v6
        (rw (lan_base-network family net host h) at e))
