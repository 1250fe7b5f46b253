-- ===== src/Nyansd/LocalIp/Search.antt =====
-- Where the address that `remoteToLocalIP` returns comes from.
use nyan_sd.Base.{
  ℕ, ◌≡◌, refl, sym, ap, ◌∙◌, true, Bool-cases, inl, inr, ◌⊎◌, Option, none, some, List, [], ◌∷◌,
  arith, Bytes,
}
use nyan_sd.ByteBauble.{BbEndianness}
use nyan_sd.Nyansd.Ipv4.{ipv4_string_to_uint}
use nyan_sd.Nyansd.LocalIp.{
  Family, af_inet, af_inet6, Address, is_inet, erase_from_last, starts_with, any_match, first_inet,
  first_inet6, found, converted, on_interface, search_interfaces,
}

-- Some address of the list has the property.
abbrev pub AnyAddress : (Address → Type 0) → List Address → Type 0
AnyAddress P [] = ⊥
AnyAddress P (a ∷ as') = P a ⊎ AnyAddress P as'

abbrev pub AnyInterface : (List Address → Type 0) → List (List Address) → Type 0
AnyInterface P [] = ⊥
AnyInterface P (i ∷ is) = P i ⊎ AnyInterface P is

any_match-AnyAddress :
    (addr : Bytes) (i : List Address)
    → any_match addr i ≡ true
    → AnyAddress (λ a. starts_with addr a.text ≡ true) i
unfolding any_match
any_match-AnyAddress addr [] h = cc
any_match-AnyAddress addr (a ∷ as') h = elim (Bool-cases (starts_with addr a.text)) [
  | inl yes' ↦ inl yes'
  | inr no' ↦ inr (any_match-AnyAddress addr as' (rw no' at h))
]

pub AnyAddress-map :
    (P Q : Address → Type 0)
    → ((a : Address) → P a → Q a)
    → (i : List Address) → AnyAddress P i
    → AnyAddress Q i
AnyAddress-map P Q f [] h = h
AnyAddress-map P Q f (a ∷ as') (inl h) = inl (f a h)
AnyAddress-map P Q f (a ∷ as') (inr h) = inr (AnyAddress-map P Q f as' h)

pub AnyInterface-map :
    (P Q : List Address → Type 0)
    → ((i : List Address) → P i → Q i)
    → (is : List (List Address)) → AnyInterface P is
    → AnyInterface Q is
AnyInterface-map P Q f [] h = h
AnyInterface-map P Q f (i ∷ is) (inl h) = inl (f i h)
AnyInterface-map P Q f (i ∷ is) (inr h) = inr (AnyInterface-map P Q f is h)

first_inet-AnyAddress :
    (i : List Address) (t : Bytes)
    → first_inet i ≡ some t
    → AnyAddress (λ a. (a.family ≡ af_inet) × (a.text ≡ t)) i
unfolding first_inet
first_inet-AnyAddress [] t h = cc
first_inet-AnyAddress (a ∷ as') t h = elim (Bool-cases (is_inet a.family)) [
  | inl four ↦ inl (ground arith, ground arith)
  | inr six ↦ inr (first_inet-AnyAddress as' t (ground arith))
]

first_inet6-AnyAddress :
    (i : List Address) (t : Bytes)
    → first_inet6 i ≡ some t
    → AnyAddress (λ a. (a.family ≡ af_inet6) × (a.text ≡ t)) i
unfolding first_inet6
first_inet6-AnyAddress [] t h = cc
first_inet6-AnyAddress (a ∷ as') t h = elim (Bool-cases (is_inet a.family)) [
  | inl four ↦ inr (first_inet6-AnyAddress as' t (ground arith))
  | inr six ↦ inl (ground arith, ground arith)
]

converted-found :
    (o : Option ℕ) (ipv6 v6 : Bytes) (v4 : ℕ)
    → converted o ipv6 ≡ found v4 v6
    → (o ≡ some v4) × (v6 ≡ ipv6)
unfolding converted
converted-found none ipv6 v6 v4 h = absurd (ground arith)
converted-found (some v) ipv6 v6 v4 h = (ground arith, ground arith)

-- What the two inner loops find is an address of the interface: an IPv4 address for a sender that
-- has one, else an IPv6 text without its scope.
abbrev pub Own : BbEndianness → Family → ℕ → Bytes → ℕ → Bytes → List Address → Type 0
Own machine family ipv4 ipv6 v4 v6 i =
    ((family ≡ af_inet)
      × (v6 ≡ ipv6)
      × AnyAddress (λ a. (a.family ≡ af_inet) × (ipv4_string_to_uint machine a.text ≡ some v4)) i)
    ⊎ ((family ≡ af_inet6)
        × (v4 ≡ ipv4)
        × AnyAddress (λ a. (a.family ≡ af_inet6) × (v6 ≡ erase_from_last b'%' a.text)) i)

Option-cases : (o : Option Bytes) → (o ≡ none) ⊎ ((t : Bytes) × (o ≡ some t))
Option-cases none = inl refl
Option-cases (some t) = inr (t, refl)

on_interface-Own :
    (machine : BbEndianness) (family : Family) (i : List Address) (ipv4 : ℕ) (ipv6 : Bytes) (v4 : ℕ)
    (v6 : Bytes)
    → on_interface machine family i ipv4 ipv6 ≡ found v4 v6
    → Own machine family ipv4 ipv6 v4 v6 i
unfolding on_interface
on_interface-Own machine af_inet i ipv4 ipv6 v4 v6 h = elim (Option-cases (first_inet i)) [
  | inl gone ↦ absurd (ground arith)
  | inr (t, e) ↦
      let (o, same) = converted-found (ipv4_string_to_uint machine t) ipv6 v6 v4 (ground arith) in
      inl (
        refl,
        same,
        AnyAddress-map _ _ (λ a p. (p.0, ap (ipv4_string_to_uint machine) p.1 ∙ o)) i
            (first_inet-AnyAddress i t e),
      )
]
on_interface-Own machine af_inet6 i ipv4 ipv6 v4 v6 h = elim (Option-cases (first_inet6 i)) [
  | inl gone ↦ absurd (ground arith)
  | inr (t, e) ↦
      let four : v4 ≡ ipv4 = ground arith in
      let six : v6 ≡ erase_from_last b'%' t = ground arith in
      inr (
        refl,
        four,
        AnyAddress-map _ _ (λ a p. (p.0, six ∙ ap (erase_from_last b'%') (sym p.1))) i
            (first_inet6-AnyAddress i t e),
      )
]

pub search_interfaces-Own :
    (machine : BbEndianness) (family : Family) (addr : Bytes) (is : List (List Address)) (ipv4 : ℕ)
    (ipv6 : Bytes) (v4 : ℕ) (v6 : Bytes)
    → search_interfaces machine family addr is ipv4 ipv6 ≡ found v4 v6
    → AnyInterface
        (λ i.
          AnyAddress (λ a. starts_with addr a.text ≡ true) i × Own machine family ipv4 ipv6 v4 v6 i)
        is
unfolding search_interfaces
search_interfaces-Own machine family addr [] ipv4 ipv6 v4 v6 h = absurd (ground arith)
search_interfaces-Own machine family addr (i ∷ is) ipv4 ipv6 v4 v6 h =
    elim (Bool-cases (any_match addr i)) [
      | inl match ↦ inl (
        any_match-AnyAddress addr i match,
        on_interface-Own machine family i ipv4 ipv6 v4 v6 (rw match at h),
      )
      | inr other ↦
          inr (search_interfaces-Own machine family addr is ipv4 ipv6 v4 v6 (rw other at h))
    ]
