-- ===== src/Arduino/Compose.antt =====
-- The query message of the microcontroller client against that of the library.
use nyan_sd.Base.{
  ℕ, suc, ◌%◌, ◌<◌, ◌≡◌, refl, ap, ◌∙◌, inl, List, [], ◌∷◌, ◌++◌, arith, length, map, All, Bytes,
  if◌then◌else◌, ltb,
}
use nyan_sd.ByteBauble.{BbEndianness, le_bytes}
use nyan_sd.Nyansd as Library
use nyan_sd.Nyansd.{signature, protocol_code}
use nyan_sd.Nyansd.Wire.{write_uint-le_bytes}
use nyan_sd.Nyansd.SendQuery as Full
use nyan_sd.Nyansd.Handler.Queries.{take-all}
use nyan_sd.Arduino.{Query, query_section, query_sections, query_message}

-- The same query for the library.
abbrev pub full : Query → Library.Query
full q = record { protocol = q.protocol; filter = q.filter }

abbrev pub GivesLength : Query → Type 0
GivesLength q = q.length ≡ length q.filter

query_sections-full :
    (qs : List Query) → All GivesLength qs → query_sections qs ≡ Full.query_sections (map full qs)
unfolding query_sections query_section Full.query_sections Full.query_section
query_sections-full [] h = refl
query_sections-full (q ∷ qs) (h, hs) =
    ap
      (λ n.
        (b'Q' ∷ protocol_code q.protocol ∷ (n % 256) ∷ (if ltb 0 (n % 256) then q.filter else []))
        ++ query_sections qs)
      h
    ∙ ap (◌++◌ (Full.query_section (full q))) (query_sections-full qs hs)

pub length-full : (qs : List Query) → length (map full qs) ≡ length qs
length-full [] = refl
length-full (q ∷ qs) = ap suc (length-full qs)

-- When each query gives the length of its filter, and `String(char)` makes a text of that one
-- character, the microcontroller sends for up to 255 queries the very bytes that the library
-- sends on a machine of either byte order.
pub query_message-full :
    (of_char : ℕ → Bytes) (machine : BbEndianness) (qs : List Query)
    → ((c : ℕ) → of_char c ≡ c ∷ [])
    → All GivesLength qs
    → length qs < 256
    → query_message of_char qs ≡ Full.query_message machine (map full qs)
unfolding query_message Full.query_message Full.query_body le_bytes
query_message-full of_char machine qs one h few =
    rw
      (
        write_uint-le_bytes machine 2 _ (inl refl),
        length-full,
        short,
        ← length-full qs,
        take-all (map full qs),
        length-full,
        one (length qs),
        query_sections-full qs h,
      )
      (simp one)
  where
    short : length qs % 256 ≡ length qs
    short = omega arith
