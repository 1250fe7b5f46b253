-- ===== src/Nyansd/Handler/Announced.antt =====
-- The services that a server announces for a query, and that they fit a response.
use nyan_sd.Base.{
  ◌+◌, ◌^◌, ◌<◌, ◌≤◌, Bool-cases, inl, inr, List, [], ◌∷◌, arith, length, All, length-append, map,
  equal, Bytes,
}
use nyan_sd.Nyansd.{Service, FitsSection, Query}
use nyan_sd.Nyansd.LocalIp.{LocalIp, found, missing, thrown}
use nyan_sd.Nyansd.Response.Section.{section, section_list}
use nyan_sd.Nyansd.Response.Message.{FitsMessage}
use nyan_sd.Nyansd.Handler.Answers.{localize, Ready, matching, length-map-localize}

-- The registered services as one response must hold them when all of them match.
pub record FitsServer (local : LocalIp) (svs : List Service) : Type 0 where
  pub ready : All (Ready local) svs
  pub count_fits : length svs < 256
  pub length_fits : length (section_list (map (localize local) svs)) + 2 < 256 ^ 2

module _ (local : LocalIp) where
  FitsSection-localize :
      (svs : List Service) → All (Ready local) svs → All FitsSection (map (localize local) svs)
  FitsSection-localize [] r = tt
  FitsSection-localize (sv ∷ svs) (r, rs) = (one local r, FitsSection-localize svs rs)
    where
      one : (l : LocalIp) → Ready l sv → FitsSection (localize l sv)
      one (found v4 v6) h = h.0
      one missing h = unfold localize in h.0
      one thrown h = unfold localize in h.0

pub matching-All {κ} :
    (P : Service → Type κ) (filter : Bytes) (svs : List Service)
    → All P svs
    → All P (matching filter svs)
unfolding matching
matching-All P filter [] h = h
matching-All P [] (sv ∷ svs) (h, hs) = (h, matching-All P [] svs hs)
matching-All P (c ∷ cs) (sv ∷ svs) (h, hs) = elim (Bool-cases (equal (c ∷ cs) sv.service)) [
  | inl same ↦ rw same (h, matching-All P (c ∷ cs) svs hs)
  | inr other ↦ rw other (matching-All P (c ∷ cs) svs hs)
]

pub length-matching :
    (filter : Bytes) (svs : List Service) → length (matching filter svs) ≤ length svs
unfolding matching
length-matching filter [] = omega arith
length-matching [] (sv ∷ svs) = omega (arith, length-matching [] svs)
length-matching (c ∷ cs) (sv ∷ svs) = ground (arith, length-matching (c ∷ cs) svs)

room-matching :
    (local : LocalIp) (filter : Bytes) (svs : List Service)
    → length (section_list (map (localize local) (matching filter svs)))
      ≤ length (section_list (map (localize local) svs))
unfolding matching section_list
room-matching local filter [] = omega arith
room-matching local [] (sv ∷ svs) = omega (
  arith,
  room-matching local [] svs,
  length-append (section (localize local sv)) (section_list (map (localize local) svs)),
  length-append (section (localize local sv))
      (section_list (map (localize local) (matching [] svs))),
)
room-matching local (c ∷ cs) (sv ∷ svs) = ground (
  arith,
  room-matching local (c ∷ cs) svs,
  length-append (section (localize local sv)) (section_list (map (localize local) svs)),
  length-append (section (localize local sv))
      (section_list (map (localize local) (matching (c ∷ cs) svs))),
)

-- The services announced in answer to a query.
unfoldable pub announced : LocalIp → List Service → Query → List Service
announced local svs q = map (localize local) (matching q.filter svs)

pub FitsMessage-announced :
    (local : LocalIp) (svs : List Service) (q : Query)
    → FitsServer local svs
    → FitsMessage (announced local svs q)
unfolding announced
FitsMessage-announced local svs q f = record {
  each_fits = FitsSection-localize local _ (matching-All (Ready local) q.filter svs f.ready);
  count_fits = omega (
    arith,
    f.count_fits,
    length-matching q.filter svs,
    length-map-localize local (matching q.filter svs),
  );
  length_fits = omega (arith, f.length_fits, room-matching local q.filter svs);
}
