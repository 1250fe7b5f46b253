-- ===== src/Nyansd/SendQuery/LongFilter.antt =====
-- Filters that are too long for the one byte of their length.
use nyan_sd.Base.{
  ℕ, zero, suc, ◌%◌, ◌≡◌, refl, ap, Bool-cases, inl, inr, List, [], ◌∷◌, length, take, ◌==◌, ==_iff,
  if◌then◌else◌, map,
}
use nyan_sd.ByteBauble.{BbEndianness}
use nyan_sd.Nyansd.{Service, Query}
use nyan_sd.Nyansd.SendQuery.{
  query_section, query_sections, query_body, query_message, Interface, send_query,
}

-- The query without its filter, if the filter's length is a multiple of 256.
abbrev pub unfiltered : Query → Query
unfiltered q = if length q.filter % 256 == 0 then record q { filter = [] } else q

query_section-unfiltered : (q : Query) → query_section (unfiltered q) ≡ query_section q
unfolding query_section
query_section-unfiltered q = elim (Bool-cases (length q.filter % 256 == 0)) [
  | inl multiple ↦
      let e : length q.filter % 256 ≡ 0 = (==_iff (length q.filter % 256) 0).0 multiple in
      rw (multiple, e)
  | inr other ↦ rw other
]

query_sections-unfiltered :
    (qs : List Query) → query_sections (map unfiltered qs) ≡ query_sections qs
unfolding query_sections
query_sections-unfiltered [] = refl
query_sections-unfiltered (q ∷ qs) = rw (query_section-unfiltered q, query_sections-unfiltered qs)

length-unfiltered : (qs : List Query) → length (map unfiltered qs) ≡ length qs
length-unfiltered [] = refl
length-unfiltered (q ∷ qs) = ap suc (length-unfiltered qs)

map-take {ℓ κ} :
    {A : Type ℓ} {B : Type κ} (f : A → B) (n : ℕ) (xs : List A)
    → take n (map f xs) ≡ map f (take n xs)
map-take f zero xs = refl
map-take f (suc n) [] = refl
map-take f (suc n) (x ∷ xs) = ap (◌∷◌ (f x)) (map-take f n xs)

query_body-unfiltered : (qs : List Query) → query_body (map unfiltered qs) ≡ query_body qs
unfolding query_body
query_body-unfiltered qs = rw (
  length-unfiltered qs,
  map-take unfiltered (length qs % 256) qs,
  query_sections-unfiltered (take (length qs % 256) qs),
)

-- `sendQuery` does for any queries what it does for the same queries with no filter in place of
-- each filter whose length is a multiple of 256, such as one of 256 bytes: it asks for all
-- services.
pub send_query-unfiltered :
    (machine : BbEndianness) (port : ℕ) (qs : List Query) (interfaces : List Interface)
    (out : List Service)
    → send_query machine port qs interfaces out
      ≡ send_query machine port (map unfiltered qs) interfaces out
unfolding send_query query_message
send_query-unfiltered machine port qs interfaces out =
    rw (length-unfiltered qs, query_body-unfiltered qs)
