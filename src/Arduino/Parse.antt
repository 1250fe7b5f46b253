-- ===== src/Arduino/Parse.antt =====
-- Reading responses, against the library's reader.
use nyan_sd.Base.{
  ℕ, ◌+◌, ◌-◌, ◌^◌, ◌<◌, ◌≤◌, ◌≡◌, refl, sym, ap, ◌∙◌, inl, inr, true, some, none, List, [], ◌∷◌,
  ◌++◌, arith, length, append_assoc, append-nil, map, All, le→ltb, equal_refl, if◌then◌else◌, Bytes,
}
use nyan_sd.ByteBauble.{bb_le, le_bytes, load, to_host, byte_bauble}
use nyan_sd.ByteBauble.Order.{IsWidth}
use nyan_sd.Nyansd.{Service, FitsSection, signature}
use nyan_sd.Nyansd.Wire.{ok, At, read_uint, read8_lem, read_bytes_lem, read_uint_lem}
use nyan_sd.Nyansd.Response.Section.{
  section, section_list, section_then, section-append, protocol_of-protocol_code,
}
use nyan_sd.Nyansd.Response.Message.{message, message_with, FitsMessage, length-message}
use nyan_sd.Arduino.{
  NysdService, Client, Chain, nodes, dangling, read_le, parse_service, added, parse_sections,
  parse_datagram, with_signature, with_length, with_type, with_count, at_chain, after_datagram,
  advance, Responses, returned, get_loop, get_responses,
}

read_le-read_uint :
    (k : ℕ) (buffer : Bytes) (index : ℕ) → read_le k buffer index ≡ read_uint bb_le k buffer index
unfolding read_le read_uint to_host byte_bauble load
read_le-read_uint k buffer index = refl

-- A service whose texts lie where the pointers lead.
unfoldable pub stored : Service → NysdService
stored sv = record {
  ipv4 = sv.ipv4;
  ipv6 = record { bytes = sv.ipv6 };
  port = sv.port;
  hostname = record { bytes = sv.hostname };
  service = record { bytes = sv.service };
  protocol = sv.protocol;
}

abbrev pub first_of : List Service → List NysdService
first_of [] = []
first_of (sv ∷ svs) = stored sv ∷ []

-- The first service of each message that has one.
unfoldable pub firsts : List (List Service) → List NysdService
firsts [] = []
firsts (svs ∷ svss) = first_of svs ++ firsts svss

pub read_le_lem :
    (k x : ℕ) (buffer : Bytes) (index : ℕ) (rest : Bytes)
    → IsWidth k
    → x < 256 ^ k
    → At buffer index (le_bytes k x ++ rest)
    → (read_le k buffer index ≡ ok x) × At buffer (index + k) rest
read_le_lem k x buffer index rest w fits h =
    let (e, a) = read_uint_lem bb_le k x buffer index rest w fits h in
    (read_le-read_uint k buffer index ∙ e, a)

-- The section that the library writes for a service.
pub parse_service-section :
    (sv : Service) (buffer : Bytes) (index : ℕ) (rest : Bytes)
    → FitsSection sv
    → At buffer index (section sv ++ rest)
    → (j : ℕ) × (parse_service buffer index ≡ ok (stored sv, j)) × At buffer j rest
unfolding parse_service section_then stored
parse_service-section sv buffer i rest f h =
    let w2 : IsWidth 2 = inl refl in
    let w4 : IsWidth 4 = inr (inl refl) in
    let (e0, a0) = read8_lem buffer i _ _ (rw (section-append sv rest) at h) in
    let (e1, a1) = read_le_lem 4 sv.ipv4 buffer _ _ w4 f.ipv4_fits a0 in
    let (e2, a2) = read8_lem buffer _ _ _ a1 in
    let (e3, a3) = read_bytes_lem buffer _ sv.ipv6 _ a2 in
    let (e4, a4) = read_le_lem 2 (length sv.hostname) buffer _ _ w2 f.hostname_fits a3 in
    let (e5, a5) = read_bytes_lem buffer _ sv.hostname _ a4 in
    let (e6, a6) = read_le_lem 2 sv.port buffer _ _ w2 f.port_fits a5 in
    let (e7, a7) = read8_lem buffer _ _ _ a6 in
    let (e8, a8) = read_le_lem 2 (length sv.service) buffer _ _ w2 f.service_fits a7 in
    let (e9, a9) = read_bytes_lem buffer _ sv.service rest a8 in
    (_, rw (e0, e1, e2, e3, e4, e5, e6, e7, e8, e9, protocol_of-protocol_code), a9)

parse_sections-section_list :
    (svs : List Service) (buffer rest : Bytes) (index : ℕ)
    → All FitsSection svs
    → At buffer index (section_list svs ++ rest)
    → parse_sections buffer (length svs) index ≡ added (first_of svs)
unfolding parse_sections section_list
parse_sections-section_list [] buffer rest i f h = refl
parse_sections-section_list (sv ∷ svs) buffer rest i (f, fs) h =
    let (j, e, a) =
      parse_service-section sv buffer i (section_list svs ++ rest) f
        (rw (append_assoc (section sv) (section_list svs) rest) at h) in
    rw e

pub parse_datagram-message :
    (svs : List Service) → FitsMessage svs → parse_datagram (message svs) ≡ added (first_of svs)
unfolding parse_datagram
parse_datagram-message svs f =
    let buffer = message svs in
    let body : Bytes =
      le_bytes 2 (length (section_list svs) + 2) ++ (2 ∷ length svs ∷ (section_list svs ++ [])) in
    let start : At buffer 0 (signature ++ body) =
      (unfold message message_with in rw append-nil, omega arith) in
    let (e0, a0) = read_bytes_lem buffer 0 signature body start in
    let (e1, a1) =
      read_le_lem 2 (length (section_list svs) + 2) buffer 6 _ (inl refl) f.length_fits a0 in
    let (e2, a2) = read8_lem buffer 8 _ _ a1 in
    let (e3, a3) = read8_lem buffer 9 _ _ a2 in
    let long : 8 ≤ length buffer = omega (arith, length-message svs) in
    let whole : length (section_list svs) + 2 ≤ length buffer - 8 =
      omega (arith, length-message svs) in
    rw
      (
        le→ltb (length buffer) 8 long,
        e0,
        with_signature,
        equal_refl signature,
        e1,
        with_length,
        le→ltb (length buffer - 8) _ whole,
        e2,
        with_type,
        e3,
        with_count,
      )
      (parse_sections-section_list svs buffer [] 10 f.each_fits a3)

-- The chain of some messages; when none is left, the pointer dangles.
abbrev pub chain_of : List (List Service) → Chain
chain_of [] = dangling
chain_of (svs ∷ svss) = nodes (message svs) (map message svss)

advance-chain_of : (svss : List (List Service)) → advance (map message svss) ≡ chain_of svss
unfolding advance
advance-chain_of [] = refl
advance-chain_of (svs ∷ svss) = refl

at_chain-message :
    (c : Client) (svs : List Service) (svss : List (List Service)) (out : List NysdService)
    (next : Client → List NysdService → Responses)
    → FitsMessage svs
    → at_chain c (nodes (message svs) (map message svss)) out next
      ≡ next (record c { response = chain_of svss }) (out ++ first_of svs)
unfolding at_chain after_datagram
at_chain-message c svs svss out next f =
    rw (parse_datagram-message svs f)
      (ap (λ ch. next (record c { response = ch }) (out ++ first_of svs)) (advance-chain_of svss))

get_loop-chain_of :
    (svss : List (List Service)) (c : Client) (out : List NysdService)
    → All FitsMessage svss
    → c.response ≡ chain_of svss
    → get_loop (length svss) c out
      ≡ returned 0
          (record c { response = dangling })
          (out ++ firsts svss)
          (some (length (out ++ firsts svss)))
unfolding get_loop firsts
get_loop-chain_of [] c out h e = λ i.
    returned 0 (record c { response = e i }) (sym (append-nil out) i)
      (some (length (sym (append-nil out) i)))
get_loop-chain_of (svs ∷ svss) c out (h, hs) e =
    ap (λ ch. at_chain c ch out (λ c' out'. get_loop (length svss) c' out')) e
    ∙ at_chain-message c svs svss out (λ c' out'. get_loop (length svss) c' out') h
    ∙ get_loop-chain_of svss (record c { response = chain_of svss }) (out ++ first_of svs) hs refl
    ∙ ap (λ o. returned 0 (record c { response = dangling }) o (some (length o)))
        (append_assoc out (first_of svs) (firsts svss))

-- On datagrams that are each one response message, the call returns 0 with the first service of
-- every message and no other, and `resnum` is their number; the pointer to the datagrams is left
-- pointing to a deleted one.
pub get_responses-firsts :
    (svs : List Service) (svss : List (List Service)) (c : Client)
    → FitsMessage svs
    → All FitsMessage svss
    → c.received ≡ true
    → c.count ≡ length (svs ∷ svss)
    → c.response ≡ nodes (message svs) (map message svss)
    → get_responses c
      ≡ returned 0
          (record c { response = dangling })
          (firsts (svs ∷ svss))
          (some (length (firsts (svs ∷ svss))))
unfolding get_responses
get_responses-firsts svs svss c f fs r n e =
    ap (λ b. if b then get_loop c.count c [] else returned 1 c [] none) r
    ∙ ap (λ k. get_loop k c []) n
    ∙ get_loop-chain_of (svs ∷ svss) c [] (f, fs) e
