-- ===== src/Nyansd/Response/Message.antt =====
-- Reading whole response messages.
use nyan_sd.Base.{
  ℕ, ◌+◌, ◌-◌, ◌%◌, ◌^◌, ◌<◌, ◌≤◌, ◌≡◌, refl, subst, List, ◌∷◌, ◌++◌, arith, length, All,
  length-append, append_assoc, inl, le→ltb, equal_refl, Bytes,
}
use nyan_sd.ByteBauble.{BbEndianness, le_bytes}
use nyan_sd.ByteBauble.Order.{length-le_bytes}
use nyan_sd.Nyansd.{Service, FitsSection, signature}
use nyan_sd.Nyansd.Wire.{ok, At, read_bytes, read8_lem, read_bytes_lem, read_uint_lem}
use nyan_sd.Nyansd.Response.{sections, parse_header, on, parse_message}
use nyan_sd.Nyansd.Response.Section.{section_list, parse_services-section_list}

-- A response message for some services, with any bytes in the place of the signature.
unfoldable pub message_with : Bytes → List Service → Bytes
message_with sig svs =
    sig ++ (le_bytes 2 (length (section_list svs) + 2) ++ (2 ∷ length svs ∷ section_list svs))

-- A response message for some services.
unfoldable pub message : List Service → Bytes
unfolding message_with
message svs = message_with signature svs

-- What one message has room for.
pub record FitsMessage (svs : List Service) : Type 0 where
  pub each_fits : All FitsSection svs
  pub count_fits : length svs < 256
  pub length_fits : length (section_list svs) + 2 < 256 ^ 2

pub length-message : (svs : List Service) → length (message svs) ≡ length (section_list svs) + 10
unfolding message
length-message svs = omega (
  arith,
  length-append (le_bytes 2 (length (section_list svs) + 2)) (2 ∷ length svs ∷ section_list svs),
  length-le_bytes 2 (length (section_list svs) + 2),
)

pub length-message_with :
    (sig : Bytes) (svs : List Service)
    → length (message_with sig svs) ≡ length sig + length (section_list svs) + 4
unfolding message_with
length-message_with sig svs = omega (
  arith,
  length-append sig
      (le_bytes 2 (length (section_list svs) + 2) ++ (2 ∷ length svs ∷ section_list svs)),
  length-append (le_bytes 2 (length (section_list svs) + 2)) (2 ∷ length svs ∷ section_list svs),
  length-le_bytes 2 (length (section_list svs) + 2),
)

message-append :
    (sig : Bytes) (svs : List Service) (rest : Bytes)
    → message_with sig svs ++ rest
      ≡ sig
        ++ (le_bytes 2 (length (section_list svs) + 2)
            ++ (2 ∷ length svs ∷ (section_list svs ++ rest)))
unfolding message_with
message-append sig svs rest = simp append_assoc

-- The signature at the buffer's start is all that the parser looks at.
abbrev pub Signed : Bytes → Type 0
Signed buffer = read_bytes buffer 0 6 ≡ ok signature

parse_header-message_with :
    (machine : BbEndianness) (sig : Bytes) (svs : List Service) (buffer : Bytes) (n index : ℕ)
    (rest : Bytes)
    → length sig ≡ 6
    → FitsMessage svs
    → Signed buffer
    → At buffer index (message_with sig svs ++ rest)
    → index + length (message_with sig svs) ≤ n
    → n < 2 ^ 32
    → (j : ℕ) × (parse_header machine buffer n index ≡ ok (sections (length svs) j))
      × At buffer j (section_list svs ++ rest)
unfolding parse_header
parse_header-message_with machine sig svs buffer n i rest six f s h room small =
    let (_, a0') = read_bytes_lem buffer i sig _ (rw (message-append sig svs rest) at h) in
    let after : Bytes =
      le_bytes 2 (length (section_list svs) + 2) ++ (2 ∷ length svs ∷ (section_list svs ++ rest)) in
    let a0 : At buffer (i + 6) after = subst (λ k. At buffer (i + k) after) six a0' in
    let (e1, a1) =
      read_uint_lem machine 2 (length (section_list svs) + 2) buffer (i + 6) _ (inl refl)
        f.length_fits a0 in
    let (e2, a2) = read8_lem buffer (i + 6 + 2) _ _ a1 in
    let (e3, a3) = read8_lem buffer (i + 6 + 2 + 1) _ _ a2 in
    (_, rw (s, equal_refl signature, e1, le→ltb _ _ enough, e2, e3), a3)
  where
    enough : length (section_list svs) + 2 ≤ (n + 2 ^ 32 - (i + 6 + 2)) % 2 ^ 32
    enough = omega (arith, length-message_with sig svs)

pub parse_message-message_with :
    (machine : BbEndianness) (sig : Bytes) (svs : List Service) (buffer : Bytes) (n index : ℕ)
    (out : List Service) (rest : Bytes)
    → length sig ≡ 6
    → FitsMessage svs
    → Signed buffer
    → At buffer index (message_with sig svs ++ rest)
    → index + length (message_with sig svs) ≤ n
    → n < 2 ^ 32
    → (j : ℕ) × (parse_message machine buffer n index out ≡ on j (out ++ svs)) × At buffer j rest
unfolding parse_message
parse_message-message_with machine sig svs buffer n i out rest six f s h room small =
    let (j, e, a) =
      parse_header-message_with machine sig svs buffer n i rest six f s h room small in
    let (k, e', a') = parse_services-section_list machine svs buffer j out rest f.each_fits a in
    (k, rw e e', a')

pub parse_message-message :
    (machine : BbEndianness) (svs : List Service) (buffer : Bytes) (n index : ℕ)
    (out : List Service) (rest : Bytes)
    → FitsMessage svs
    → Signed buffer
    → At buffer index (message svs ++ rest)
    → index + length (message svs) ≤ n
    → n < 2 ^ 32
    → (j : ℕ) × (parse_message machine buffer n index out ≡ on j (out ++ svs)) × At buffer j rest
unfolding message
parse_message-message machine svs buffer n i out rest f s h room small =
    parse_message-message_with machine signature svs buffer n i out rest refl f s h room small
