-- ===== src/Nyansd/Response/Section.antt =====
-- Reading the section of one service, and of several in a row.
use nyan_sd.Base.{
  ℕ, ◌<◌, ◌≡◌, refl, sym, ap, ◌∙◌, List, [], ◌∷◌, ◌++◌, arith, length, All, append_assoc,
  append-nil, inl, inr, Bytes,
}
use nyan_sd.ByteBauble.{BbEndianness, le_bytes}
use nyan_sd.ByteBauble.Order.{IsWidth}
use nyan_sd.Nyansd.{Protocol, protocol_code, Service, FitsSection}
use nyan_sd.Nyansd.Wire.{ok, At, read8_lem, read_bytes_lem, read_uint_lem}
use nyan_sd.Nyansd.Response.{protocol_of, parse_service, on, parse_services}

-- The bytes of a service section, in the order of the protocol's description.
unfoldable pub section : Service → Bytes
section sv =
    b'S'
    ∷ (le_bytes 4 sv.ipv4
        ++ (length sv.ipv6
            ∷ (sv.ipv6
                ++ (le_bytes 2 (length sv.hostname)
                    ++ (sv.hostname
                        ++ (le_bytes 2 sv.port
                            ++ (protocol_code sv.protocol
                                ∷ (le_bytes 2 (length sv.service) ++ sv.service))))))))

-- The same, followed by `rest`.
unfoldable pub section_then : Service → Bytes → Bytes
section_then sv rest =
    b'S'
    ∷ (le_bytes 4 sv.ipv4
        ++ (length sv.ipv6
            ∷ (sv.ipv6
                ++ (le_bytes 2 (length sv.hostname)
                    ++ (sv.hostname
                        ++ (le_bytes 2 sv.port
                            ++ (protocol_code sv.protocol
                                ∷ (le_bytes 2 (length sv.service) ++ (sv.service ++ rest)))))))))

pub section-append : (sv : Service) (rest : Bytes) → section sv ++ rest ≡ section_then sv rest
unfolding section section_then
section-append sv rest = simp append_assoc

pub protocol_of-protocol_code : (p old : Protocol) → protocol_of (protocol_code p) old ≡ p
unfolding protocol_of
protocol_of-protocol_code p old = ground arith

pub parse_service-section :
    (machine : BbEndianness) (sv : Service) (buffer : Bytes) (index : ℕ) (rest : Bytes)
    → FitsSection sv
    → At buffer index (section sv ++ rest)
    → (j : ℕ) × (parse_service machine buffer index ≡ ok (sv, j)) × At buffer j rest
unfolding parse_service section_then
parse_service-section machine sv buffer i rest f h =
    let w2 : IsWidth 2 = inl refl in
    let w4 : IsWidth 4 = inr (inl refl) in
    let (e0, a0) = read8_lem buffer i _ _ (rw (section-append sv rest) at h) in
    let (e1, a1) = read_uint_lem machine 4 sv.ipv4 buffer _ _ w4 f.ipv4_fits a0 in
    let (e2, a2) = read8_lem buffer _ _ _ a1 in
    let (e3, a3) = read_bytes_lem buffer _ sv.ipv6 _ a2 in
    let (e4, a4) = read_uint_lem machine 2 (length sv.hostname) buffer _ _ w2 f.hostname_fits a3 in
    let (e5, a5) = read_bytes_lem buffer _ sv.hostname _ a4 in
    let (e6, a6) = read_uint_lem machine 2 sv.port buffer _ _ w2 f.port_fits a5 in
    let (e7, a7) = read8_lem buffer _ _ _ a6 in
    let (e8, a8) = read_uint_lem machine 2 (length sv.service) buffer _ _ w2 f.service_fits a7 in
    let (e9, a9) = read_bytes_lem buffer _ sv.service rest a8 in
    (_, rw (e0, e1, e2, e3, e4, e5, e6, e7, e8, e9, protocol_of-protocol_code), a9)

unfoldable pub section_list : List Service → Bytes
section_list [] = []
section_list (sv ∷ svs) = section sv ++ section_list svs

pub section_list-append :
    (xs ys : List Service) → section_list (xs ++ ys) ≡ section_list xs ++ section_list ys
unfolding section_list
section_list-append [] ys = refl
section_list-append (x ∷ xs) ys =
    ap (◌++◌ (section x)) (section_list-append xs ys)
    ∙ sym (append_assoc (section x) (section_list xs) (section_list ys))

pub parse_services-section_list :
    (machine : BbEndianness) (svs : List Service) (buffer : Bytes) (index : ℕ) (out : List Service)
    (rest : Bytes)
    → All FitsSection svs
    → At buffer index (section_list svs ++ rest)
    → (j : ℕ) × (parse_services machine buffer (length svs) index out ≡ on j (out ++ svs))
      × At buffer j rest
unfolding parse_services section_list
parse_services-section_list machine [] buffer i out rest f h = (i, rw append-nil, h)
parse_services-section_list machine (sv ∷ svs) buffer i out rest (f, fs) h =
    let (j, e, a) =
      parse_service-section machine sv buffer i (section_list svs ++ rest) f
        (rw (append_assoc (section sv) (section_list svs) rest) at h) in
    let (k, e', a') = parse_services-section_list machine svs buffer j (out ++ sv ∷ []) rest fs a in
    (k, rw e (e' ∙ ap (on k) (append_assoc out (sv ∷ []) svs)), a')

-- A section is never empty.
pub length-section : (sv : Service) → 0 < length (section sv)
unfolding section
length-section sv = omega arith
