-- ===== src/Nyansd/LocalIp/Found.antt =====
-- When `remoteToLocalIP` finds the address of an interface for a sender with an IPv4 address.
use nyan_sd.Base.{
  ℕ, zero, suc, ◌<◌, ◌^◌, ◌≡◌, ◌↔◌, refl, sym, ap, ◌∙◌, ◌⊎◌, inl, inr, true, false, none, some,
  List, [], ◌∷◌, ◌++◌, equal_iff, take, drop, length, take-append, All, Bool-cases, Bytes,
}
use nyan_sd.ByteBauble.{BbEndianness}
use nyan_sd.Nyansd.Ipv4.{ipv4_uint_to_string}
use nyan_sd.Nyansd.Ipv4.RoundTrip.{ipv4_string_to_uint-ipv4_uint_to_string}
use nyan_sd.Nyansd.LocalIp.{
  af_inet, af_inet6, Address, before_last, lan_base, starts_with, any_match, first_inet, found,
  missing, converted, on_interface, search_interfaces, remote_to_local_ip,
}
use nyan_sd.Nyansd.LocalIp.Prefix.{erase_after_last-append}
use nyan_sd.Nyansd.LocalIp.Search.{AnyAddress}

-- The address is one of those whose texts begin with `base`.
abbrev pub OnNetwork : Bytes → Address → Type 0
OnNetwork base a = (rest : Bytes) × (a.text ≡ base ++ rest)

-- The first IPv4 address of an interface has this text.
abbrev pub FirstInet : Bytes → List Address → Type 0
FirstInet t [] = ⊥
FirstInet t (a ∷ as') =
    ((a.family ≡ af_inet) × (a.text ≡ t)) ⊎ ((a.family ≡ af_inet6) × FirstInet t as')

-- Of the interfaces with an address on the network, the first has `text` for its first IPv4
-- address.
abbrev pub FirstOnNetwork : Bytes → Bytes → List (List Address) → Type 0
FirstOnNetwork base t [] = ⊥
FirstOnNetwork base t (i ∷ is) =
    (AnyAddress (OnNetwork base) i × FirstInet t i)
    ⊎ (All (λ a. OnNetwork base a → ⊥) i × FirstOnNetwork base t is)

take-drop {ℓ} : {A : Type ℓ} (n : ℕ) (xs : List A) → take n xs ++ drop n xs ≡ xs
take-drop zero xs = refl
take-drop (suc n) [] = refl
take-drop (suc n) (x ∷ xs) = ap (◌∷◌ x) (take-drop n xs)

pub starts_with-OnNetwork :
    (base : Bytes) (a : Address) → (starts_with base a.text ≡ true) ↔ OnNetwork base a
unfolding starts_with
starts_with-OnNetwork base a = (
  λ h.
      let e : base ≡ take (length base) a.text = (equal_iff base (take (length base) a.text)).0 h in
      (
        drop (length base) a.text,
        sym (take-drop (length base) a.text) ∙ ap (λ s. s ++ drop (length base) a.text) (sym e),
      ),
  λ (rest, e).
      (equal_iff base (take (length base) a.text)).1
        (sym (take-append base rest) ∙ ap (take (length base)) (sym e)),
)

any_match-AnyAddress :
    (base : Bytes) (i : List Address) → AnyAddress (OnNetwork base) i → any_match base i ≡ true
unfolding any_match
any_match-AnyAddress base (a ∷ as') (inl h) = rw ((starts_with-OnNetwork base a).1 h)
any_match-AnyAddress base (a ∷ as') (inr h) = elim (Bool-cases (starts_with base a.text)) [
  | inl here ↦ rw here
  | inr other ↦ rw other (any_match-AnyAddress base as' h)
]
any_match-AnyAddress base [] h = absurd h

pub any_match-All :
    (base : Bytes) (i : List Address) → All (λ a. OnNetwork base a → ⊥) i → any_match base i ≡ false
unfolding any_match
any_match-All base [] h = refl
any_match-All base (a ∷ as') (h, hs) = elim (Bool-cases (starts_with base a.text)) [
  | inl here ↦ absurd (h ((starts_with-OnNetwork base a).0 here))
  | inr other ↦ rw other (any_match-All base as' hs)
]

first_inet-FirstInet : (t : Bytes) (i : List Address) → FirstInet t i → first_inet i ≡ some t
unfolding first_inet
first_inet-FirstInet t [] h = absurd h
first_inet-FirstInet t (a ∷ as') (inl (e, e')) = rw (e) (ap some e')
first_inet-FirstInet t (a ∷ as') (inr (e, h)) = rw (e) (first_inet-FirstInet t as' h)

search_interfaces-FirstOnNetwork :
    (machine : BbEndianness) (base : Bytes) (v : ℕ) (interfaces : List (List Address)) (ipv4 : ℕ)
    (ipv6 : Bytes)
    → v < 256 ^ 4
    → FirstOnNetwork base (ipv4_uint_to_string machine v) interfaces
    → search_interfaces machine af_inet base interfaces ipv4 ipv6 ≡ found v ipv6
unfolding search_interfaces
search_interfaces-FirstOnNetwork machine base v [] ipv4 ipv6 fits h = absurd h
search_interfaces-FirstOnNetwork machine base v (i ∷ is) ipv4 ipv6 fits (inl (h, f)) = rw (
  any_match-AnyAddress base i h,
  first_inet-FirstInet (ipv4_uint_to_string machine v) i f,
  on_interface,
  ipv4_string_to_uint-ipv4_uint_to_string machine v fits,
  converted,
)
search_interfaces-FirstOnNetwork machine base v (i ∷ is) ipv4 ipv6 fits (inr (h, hs)) =
    rw (any_match-All base i h)
      (search_interfaces-FirstOnNetwork machine base v is ipv4 ipv6 fits hs)

-- No interface has an address on the network.
abbrev pub IsOnNoInterface : Bytes → List (List Address) → Type 0
IsOnNoInterface base is = All (All (λ a. OnNetwork base a → ⊥)) is

search_interfaces-missing :
    (machine : BbEndianness) (base : Bytes) (interfaces : List (List Address)) (ipv4 : ℕ)
    (ipv6 : Bytes)
    → IsOnNoInterface base interfaces
    → search_interfaces machine af_inet base interfaces ipv4 ipv6 ≡ missing
unfolding search_interfaces
search_interfaces-missing machine base [] ipv4 ipv6 h = refl
search_interfaces-missing machine base (i ∷ is) ipv4 ipv6 (h, hs) =
    rw (any_match-All base i h) (search_interfaces-missing machine base is ipv4 ipv6 hs)

pub remote_to_local_ip-missing :
    (machine : BbEndianness) (net host : Bytes) (interfaces : List (List Address)) (ipv4 : ℕ)
    (ipv6 : Bytes)
    → before_last b'.' host ≡ none
    → IsOnNoInterface (net ++ b'.' ∷ []) interfaces
    → remote_to_local_ip machine interfaces
        (record { family = af_inet; text = net ++ (b'.' ∷ host) })
        ipv4
        ipv6
      ≡ missing
unfolding remote_to_local_ip lan_base
remote_to_local_ip-missing machine net host interfaces ipv4 ipv6 h off =
    rw (erase_after_last-append b'.' net host h)
      (search_interfaces-missing machine (net ++ b'.' ∷ []) interfaces ipv4 ipv6 off)

-- The network of a sender: its address up to the last dot.
pub remote_to_local_ip-FirstOnNetwork :
    (machine : BbEndianness) (net host : Bytes) (v : ℕ) (interfaces : List (List Address))
    (ipv4 : ℕ) (ipv6 : Bytes)
    → v < 256 ^ 4
    → before_last b'.' host ≡ none
    → FirstOnNetwork (net ++ b'.' ∷ []) (ipv4_uint_to_string machine v) interfaces
    → remote_to_local_ip machine interfaces
        (record { family = af_inet; text = net ++ (b'.' ∷ host) })
        ipv4
        ipv6
      ≡ found v ipv6
unfolding remote_to_local_ip lan_base
remote_to_local_ip-FirstOnNetwork machine net host v interfaces ipv4 ipv6 fits h on =
    rw (erase_after_last-append b'.' net host h)
      (search_interfaces-FirstOnNetwork machine (net ++ b'.' ∷ []) v interfaces ipv4 ipv6 fits on)
