-- ===== src/Nyansd/Handler/Answers.antt =====
-- What the handler writes for the services that answer a query.
use nyan_sd.Base.{
  ℕ, suc, ◌+◌, ◌%◌, ◌^◌, ◌<◌, ◌≤◌, ◌≡◌, refl, sym, ap, ◌∙◌, false, Bool-cases, inl, inr, some, List,
  [], ◌∷◌, ◌++◌, arith, length, All, append_assoc, append-nil, le→ltb, ◌==◌, if◌then◌else◌, map,
  equal, Bytes,
}
use nyan_sd.ByteBauble.{BbEndianness, le_bytes}
use nyan_sd.ByteBauble.Order.{IsWidth}
use nyan_sd.Nyansd.{Service, FitsSection, signature}
use nyan_sd.Nyansd.LocalIp.{LocalIp, found, missing, thrown}
use nyan_sd.Nyansd.Wire.{write_uint-le_bytes}
use nyan_sd.Nyansd.Response.Section.{section, section_list}
use nyan_sd.Nyansd.Response.Message.{message, FitsMessage}
use nyan_sd.Nyansd.Handler.{
  Answer, no_answer, address_part, service_part, append_service, answer_all, answer_filtered,
  answer_query, response_message, bind,
}
use mathlib.Core.Path.{fun_ext}

-- The service as it is announced: with the interface's address where it has none of its own.
unfoldable pub localize : LocalIp → Service → Service
localize (found v4 v6) sv = if sv.ipv4 == 0 then record sv { ipv4 = v4; ipv6 = v6 } else sv
localize _ sv = sv

-- The service has an address of its own, or the interface's can be used; all parts fit.
abbrev pub Ready : LocalIp → Service → Type 0
Ready (found v4 v6) sv = FitsSection (localize (found v4 v6) sv) × (length v6 ≤ 39)
Ready missing sv = FitsSection sv × (0 < sv.ipv4)
Ready thrown sv = FitsSection sv × (0 < sv.ipv4)

-- The services that a filter asks for: all for an empty one, else those of exactly that name.
unfoldable pub matching : Bytes → List Service → List Service
matching filter [] = []
matching [] (sv ∷ svs) = sv ∷ matching [] svs
matching (c ∷ cs) (sv ∷ svs) =
    let rest = matching (c ∷ cs) svs in if equal (c ∷ cs) sv.service then sv ∷ rest else rest

matching-nil : (svs : List Service) → matching [] svs ≡ svs
unfolding matching
matching-nil [] = refl
matching-nil (sv ∷ svs) = ap (◌∷◌ sv) (matching-nil svs)

answer_filtered-matching :
    (machine : BbEndianness) (local : LocalIp) (c : ℕ) (cs : Bytes) (svs : List Service)
    (a : Answer)
    → answer_filtered machine local (c ∷ cs) svs a
      ≡ answer_all machine local (matching (c ∷ cs) svs) a
unfolding answer_filtered answer_all matching
answer_filtered-matching machine local c cs [] a = refl
answer_filtered-matching machine local c cs (sv ∷ svs) a =
    elim (Bool-cases (equal (c ∷ cs) sv.service)) [
      | inl same ↦ rw (same) (
          ap (bind (append_service machine local sv a))
            (fun_ext (λ a'. answer_filtered-matching machine local c cs svs a')))
      | inr other ↦ rw (other) (answer_filtered-matching machine local c cs svs a)
    ]

-- The two loops of the handler do the same for the services that match: for an empty filter all of
-- them, else those whose name is the filter.
pub answer_query-matching :
    (machine : BbEndianness) (local : LocalIp) (svs : List Service) (filter : Bytes)
    → answer_query machine local svs filter
      ≡ answer_all machine local (matching filter svs) no_answer
unfolding answer_query
answer_query-matching machine local svs [] = rw matching-nil
answer_query-matching machine local svs (c ∷ cs) =
    answer_filtered-matching machine local c cs svs no_answer

pub parts-section :
    (machine : BbEndianness) (sv : Service)
    → FitsSection sv
    → b'S' ∷ (address_part machine sv.ipv4 sv.ipv6 ++ service_part machine sv) ≡ section sv
unfolding address_part service_part section
parts-section machine sv f =
    let w2 : IsWidth 2 = inl refl in
    let w4 : IsWidth 4 = inr (inl refl) in
    let short6 : length sv.ipv6 % 256 ≡ length sv.ipv6 = omega arith in
    let short_host : length sv.hostname % 2 ^ 16 ≡ length sv.hostname = omega arith in
    let short_name : length sv.service % 2 ^ 16 ≡ length sv.service = omega arith in
    simp
      (
        write_uint-le_bytes machine 4 sv.ipv4 w4,
        write_uint-le_bytes machine 2 sv.port w2,
        write_uint-le_bytes machine 2 (length sv.hostname % 2 ^ 16) w2,
        write_uint-le_bytes machine 2 (length sv.service % 2 ^ 16) w2,
        append_assoc,
      )
      (rw (short6, short_host, short_name))

lt→ne : (n : ℕ) → 0 < n → (n == 0) ≡ false
lt→ne n h = ground arith

-- One section more.
abbrev pub extended : Answer → Bytes → Answer
extended a s = record { body = a.body ++ s; count = (a.count + 1) % 2 ^ 8 }

-- A ready service is appended as its section.
append_service-section :
    (machine : BbEndianness) (local : LocalIp) (sv : Service) (a : Answer)
    → Ready local sv
    → append_service machine local sv a ≡ some (extended a (section (localize local sv)))
unfolding append_service localize service_part
append_service-section machine (found v4 v6) sv a (f, short) = elim (Bool-cases (sv.ipv4 == 0)) [
  | inl unset ↦
      let there : Service = record sv { ipv4 = v4; ipv6 = v6 } in
      rw (unset, le→ltb 39 (length v6) short)
        (ap (λ s. some (extended a s)) (parts-section machine there (rw unset at f)))
  | inr own ↦ rw own (ap (λ s. some (extended a s)) (parts-section machine sv (rw own at f)))
]
append_service-section machine missing sv a (f, own) =
    rw (lt→ne sv.ipv4 own) (ap (λ s. some (extended a s)) (parts-section machine sv f))
append_service-section machine thrown sv a (f, own) =
    rw (lt→ne sv.ipv4 own) (ap (λ s. some (extended a s)) (parts-section machine sv f))

pub answer_path :
    {x y : Bytes} {m n : ℕ}
    → x ≡ y
    → m ≡ n
    → ◌≡◌ {A = Answer} (record { body = x; count = m }) (record { body = y; count = n })
answer_path p q = λ i. record { body = p i; count = q i }

-- Ready services are all appended, in order, and counted.
pub answer_all-section_list :
    (machine : BbEndianness) (local : LocalIp) (svs : List Service) (a : Answer)
    → All (Ready local) svs
    → a.count + length svs < 256
    → answer_all machine local svs a
      ≡ some (record {
        body = a.body ++ section_list (map (localize local) svs);
        count = a.count + length svs;
      })
unfolding answer_all section_list
answer_all-section_list machine local [] a r few =
    ap some (answer_path (sym (append-nil a.body)) (omega arith))
answer_all-section_list machine local (sv ∷ svs) a (r, rs) few =
    rw (append_service-section machine local sv a r, bind)
      (answer_all-section_list machine local svs (extended a (section (localize local sv))) rs
          (omega arith)
        ∙ ap some (answer_path (append_assoc a.body _ _) (omega arith)))

pub length-map-localize :
    (local : LocalIp) (svs : List Service) → length (map (localize local) svs) ≡ length svs
length-map-localize local [] = refl
length-map-localize local (sv ∷ svs) = ap suc (length-map-localize local svs)

-- The response for ready services is the message of the services as announced.
pub response_message-message :
    (machine : BbEndianness) (local : LocalIp) (svs : List Service)
    → FitsMessage (map (localize local) svs)
    → response_message machine
        (record { body = section_list (map (localize local) svs); count = length svs })
      ≡ message (map (localize local) svs)
unfolding response_message message
response_message-message machine local svs f =
    rw (write_uint-le_bytes machine 2 _ (inl refl), length-map-localize local svs)
      (ap
        (λ n.
          signature ++ (le_bytes 2 n ++ (2 ∷ length svs ∷ section_list (map (localize local) svs))))
        long)
  where
    long :
        (1 + (length (section_list (map (localize local) svs)) + 1)) % 2 ^ 16
        ≡ length (section_list (map (localize local) svs)) + 2
    long = omega (arith, f.length_fits)
