-- ===== src/Client/Order.antt =====
-- What the client prints does not depend on the order in which services are announced, nor on how
-- often they are.
use nyan_sd.Base.{
  ◌≡◌, ◌↔◌, refl, sym, ap, ◌∙◌, inl, inr, true, some, List, [], ◌∷◌, All, map, Bytes,
}
use mathlib.Core.List.{Mem, Memᴰ, Nodup, Nodup-nil, Nodup-cons, Perm, perm_ext_iff_of_Nodup}
use mathlib.Core.List.Perm
use mathlib.Core.List.Memᴰ
use mathlib.Core.Logic.{∥∥₁_elim}
use mathlib.Core.Bool.{Bool-set}
use nyan_sd.ByteBauble.{BbEndianness}
use nyan_sd.Nyansd.{Service}
use nyan_sd.Nyansd.SendQuery.{query_message}
use nyan_sd.Nyansd.Response.Datagram.{concat}
use nyan_sd.Nyansd.Discovery.Links.{Link, Works, interface_of, link_announcements}
use nyan_sd.Client.{filter_duplicates, describe, describe_all, query_all, client_main}
use nyan_sd.Client.Unique.{Elem, Distinct, is_duplicate_iff, filter_duplicates-Distinct}
use nyan_sd.Client.Session.{client_main-links}

Mem-Elem : (sv : Service) (xs : List Service) → Mem sv xs ↔ Elem sv xs
Mem-Elem sv xs = (
  λ m.
      (is_duplicate_iff xs sv).0
        (∥∥₁_elim m (Bool-set _ true) (λ d. (is_duplicate_iff xs sv).1 (from xs d))),
  λ e. ∣ to xs e ∣₁,
)
  where
    from : (xs : List Service) → Memᴰ sv xs → Elem sv xs
    from [] d = absurd (Memᴰ.not-nil d)
    from (x ∷ xs) (Memᴰ.head e) = inl (sym e)
    from (x ∷ xs) (Memᴰ.tail d) = inr (from xs d)

    to : (xs : List Service) → Elem sv xs → Memᴰ sv xs
    to [] e = absurd e
    to (x ∷ xs) (inl e) = Memᴰ.head (sym e)
    to (x ∷ xs) (inr e) = Memᴰ.tail (to xs e)

Nodup-Distinct : (xs : List Service) → Distinct xs → Nodup xs
Nodup-Distinct [] d = Nodup-nil
Nodup-Distinct (x ∷ xs) (new, d) =
    Nodup-cons.1 (λ m. new ((Mem-Elem x xs).0 m), Nodup-Distinct xs d)

-- The same services, in whatever order and however often.
abbrev pub SameServices : List Service → List Service → Type 0
SameServices xs ys = (sv : Service) → Elem sv xs ↔ Elem sv ys

Mem-filter_duplicates :
    (xs : List Service) (sv : Service) → Mem sv (filter_duplicates [] xs) ↔ Elem sv xs
Mem-filter_duplicates xs sv =
    let (d, same) = filter_duplicates-Distinct [] xs tt in
    let member : Mem sv (filter_duplicates [] xs) ↔ Elem sv (filter_duplicates [] xs) =
      Mem-Elem sv (filter_duplicates [] xs) in
    (
      λ m. elim ((same sv).0 (member.0 m)) [ inl e ↦ absurd e | inr e ↦ e ],
      λ e. member.1 ((same sv).1 (inr e)),
    )

filter_duplicates-Perm :
    (xs ys : List Service)
    → SameServices xs ys
    → Perm (filter_duplicates [] xs) (filter_duplicates [] ys)
filter_duplicates-Perm xs ys same = (perm_ext_iff_of_Nodup (distinct xs) (distinct ys)).1 (λ sv. (
  λ m. (Mem-filter_duplicates ys sv).1 ((same sv).0 ((Mem-filter_duplicates xs sv).0 m)),
  λ m. (Mem-filter_duplicates xs sv).1 ((same sv).1 ((Mem-filter_duplicates ys sv).0 m)),
))
  where
    distinct : (zs : List Service) → Nodup (filter_duplicates [] zs)
    distinct zs = Nodup-Distinct (filter_duplicates [] zs) (filter_duplicates-Distinct [] zs tt).0

describe_all-map :
    (machine : BbEndianness) (svs : List Service)
    → describe_all machine svs ≡ map (describe machine) svs
unfolding describe_all
describe_all-map machine [] = refl
describe_all-map machine (sv ∷ svs) = ap (◌∷◌ (describe machine sv)) (describe_all-map machine svs)

-- Two runs of the client, on any interfaces: when the servers of the one announce the same services
-- as those of the other, in whatever order, on whichever interfaces and however often, the client
-- prints the same lines, but for their order. The responses fit the receive buffers.
pub client_main-Perm :
    (machine : BbEndianness) (links links' : List Link)
    → All (Works (query_all ∷ [])) links
    → All (Works (query_all ∷ [])) links'
    → SameServices
        (concat (link_announcements links (query_all ∷ [])))
        (concat (link_announcements links' (query_all ∷ [])))
    → let payload = query_message machine (query_all ∷ []) in
      (lines : List Bytes) × (lines' : List Bytes) × (client_main machine
          (map (interface_of payload) links)
        ≡ some lines)
      × (client_main machine (map (interface_of payload) links') ≡ some lines')
      × Perm lines lines'
client_main-Perm machine links links' h h' same =
    let told = concat (link_announcements links (query_all ∷ [])) in
    let told' = concat (link_announcements links' (query_all ∷ [])) in
    (
      map (describe machine) (filter_duplicates [] told),
      map (describe machine) (filter_duplicates [] told'),
      client_main-links machine links h ∙ ap some (describe_all-map machine _),
      client_main-links machine links' h' ∙ ap some (describe_all-map machine _),
      Perm.map (describe machine) (filter_duplicates-Perm told told' same),
    )
