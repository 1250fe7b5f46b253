-- ===== src/Client/Unique.antt =====
-- The client's list holds each service that was received once.
use nyan_sd.Base.{
  ◌≡◌, ◌↔◌, sym, subst, ◌∙◌, ◌⊎◌, inl, inr, true, false, Bool-cases, List, [], ◌∷◌, ◌++◌,
  append-nil, append_assoc, arith, equal_iff, if◌then◌else◌,
}
use nyan_sd.Nyansd.{Service, Protocol, protocol_code}
use nyan_sd.Client.{same_service, is_duplicate, filter_duplicates}

protocol_code-injective : (p q : Protocol) → protocol_code p ≡ protocol_code q → p ≡ q
protocol_code-injective p q h = ground arith

same_service_iff : (a b : Service) → (same_service a b ≡ true) ↔ (a ≡ b)
unfolding same_service
same_service_iff a b = ground (
  arith,
  equal_iff a.ipv6 b.ipv6,
  equal_iff a.hostname b.hostname,
  equal_iff a.service b.service,
  protocol_code-injective a.protocol b.protocol,
)

-- The service is in the list.
abbrev pub Elem : Service → List Service → Type 0
Elem sv [] = ⊥
Elem sv (x ∷ xs) = (x ≡ sv) ⊎ Elem sv xs

-- No service is there twice.
abbrev pub Distinct : List Service → Type 0
Distinct [] = Unit
Distinct (x ∷ xs) = (Elem x xs → ⊥) × Distinct xs

pub is_duplicate_iff : (xs : List Service) (sv : Service) → (is_duplicate xs sv ≡ true) ↔ Elem sv xs
unfolding is_duplicate
is_duplicate_iff [] sv = (λ h. absurd (cc h), λ h. absurd h)
is_duplicate_iff (x ∷ xs) sv = ground (arith, same_service_iff x sv, is_duplicate_iff xs sv)

Elem-append : (sv : Service) (xs ys : List Service) → Elem sv (xs ++ ys) ↔ (Elem sv xs ⊎ Elem sv ys)
Elem-append sv [] ys = (λ h. inr h, λ h. elim h [ inl e ↦ absurd e | inr e ↦ e ])
Elem-append sv (x ∷ xs) ys = ground (arith, Elem-append sv xs ys)

Distinct-concat :
    (xs : List Service) (sv : Service) → Distinct xs → (Elem sv xs → ⊥) → Distinct (xs ++ sv ∷ [])
Distinct-concat [] sv d n = (λ e. e, tt)
Distinct-concat (x ∷ xs) sv (new, d) n =
    (λ e. fresh ((Elem-append x xs (sv ∷ [])).0 e), Distinct-concat xs sv d (λ e. n (inr e)))
  where
    fresh : Elem x xs ⊎ Elem x (sv ∷ []) → ⊥
    fresh (inl e) = new e
    fresh (inr (inl e)) = n (inl (sym e))
    fresh (inr (inr e)) = e

add_unique : List Service → Service → List Service
add_unique u sv = if is_duplicate u sv then u else u ++ sv ∷ []

add_unique_lem :
    (u : List Service) (sv : Service)
    → Distinct u
    → Distinct (add_unique u sv)
      × ((x : Service) → Elem x (add_unique u sv) ↔ (Elem x u ⊎ (sv ≡ x)))
unfolding add_unique
add_unique_lem u sv d = elim (Bool-cases (is_duplicate u sv)) [
  | inl old ↦ rw old (d, λ x. (λ e. inl e, λ e. known x old e))
  | inr new ↦ rw new (
    Distinct-concat u sv d (λ e. absurd (false_true (sym new ∙ (is_duplicate_iff u sv).1 e))),
    λ x. (
      λ e. shuffle x ((Elem-append x u (sv ∷ [])).0 e),
      λ e. (Elem-append x u (sv ∷ [])).1 (unshuffle x e),
    ),
  )
]
  where
    false_true : false ≡ true → ⊥
    false_true h = cc

    known : (x : Service) → is_duplicate u sv ≡ true → Elem x u ⊎ (sv ≡ x) → Elem x u
    known x old (inl e) = e
    known x old (inr p) = subst (λ y. Elem y u) p ((is_duplicate_iff u sv).0 old)

    shuffle : (x : Service) → Elem x u ⊎ Elem x (sv ∷ []) → Elem x u ⊎ (sv ≡ x)
    shuffle x (inl e) = inl e
    shuffle x (inr (inl p)) = inr p
    shuffle x (inr (inr e)) = absurd e

    unshuffle : (x : Service) → Elem x u ⊎ (sv ≡ x) → Elem x u ⊎ Elem x (sv ∷ [])
    unshuffle x (inl e) = inl e
    unshuffle x (inr p) = inr (inl p)

-- From a list that holds no service twice, the loop of the client makes one that holds no service
-- twice, and exactly the services that were in it or are among the responses.
pub filter_duplicates-Distinct :
    (u responses : List Service)
    → Distinct u
    → Distinct (filter_duplicates u responses)
      × ((x : Service) → Elem x (filter_duplicates u responses) ↔ (Elem x u ⊎ Elem x responses))
unfolding filter_duplicates add_unique
filter_duplicates-Distinct u [] d =
    (d, λ x. (λ e. inl e, λ e. elim e [ inl e' ↦ e' | inr e' ↦ absurd e' ]))
filter_duplicates-Distinct u (sv ∷ responses) d =
    let (d', same) = add_unique_lem u sv d in
    let (d'', same') = filter_duplicates-Distinct (add_unique u sv) responses d' in
    (d'', λ x. (λ e. into x (same x).0 ((same' x).0 e), λ e. (same' x).1 (out x (same x).1 e)))
  where
    into :
        (x : Service)
        → (Elem x (add_unique u sv) → Elem x u ⊎ (sv ≡ x))
        → Elem x (add_unique u sv) ⊎ Elem x responses
        → Elem x u ⊎ ((sv ≡ x) ⊎ Elem x responses)
    into x f (inl e) = elim (f e) [ inl a ↦ inl a | inr b ↦ inr (inl b) ]
    into x f (inr e) = inr (inr e)

    out :
        (x : Service)
        → (Elem x u ⊎ (sv ≡ x) → Elem x (add_unique u sv))
        → Elem x u ⊎ ((sv ≡ x) ⊎ Elem x responses)
        → Elem x (add_unique u sv) ⊎ Elem x responses
    out x f (inl e) = inl (f (inl e))
    out x f (inr (inl p)) = inl (f (inr p))
    out x f (inr (inr e)) = inr e

Distinct-new :
    (u : List Service) (sv : Service) (rest : List Service)
    → Distinct (u ++ sv ∷ rest)
    → is_duplicate u sv ≡ false
Distinct-new u sv rest d = elim (Bool-cases (is_duplicate u sv)) [
  | inl old ↦ absurd (go u ((is_duplicate_iff u sv).0 old) d)
  | inr new ↦ new
]
  where
    go : (u : List Service) → Elem sv u → Distinct (u ++ sv ∷ rest) → ⊥
    go [] e d = e
    go (x ∷ u) (inl p) d = d.0 ((Elem-append x u (sv ∷ rest)).1 (inr (inl (sym p))))
    go (x ∷ u) (inr e) d = go u e d.1

-- Responses without duplicates, of each other or of what is in the list, are all kept, in order.
pub filter_duplicates-append :
    (u responses : List Service)
    → Distinct (u ++ responses)
    → filter_duplicates u responses ≡ u ++ responses
unfolding filter_duplicates
filter_duplicates-append u [] d = rw append-nil
filter_duplicates-append u (sv ∷ responses) d = rw (Distinct-new u sv responses d) (
    filter_duplicates-append (u ++ sv ∷ []) responses
      (rw (← append_assoc u (sv ∷ []) responses) at d)
    ∙ append_assoc u (sv ∷ []) responses)
