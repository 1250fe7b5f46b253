-- ===== src/Nyansd/Handler/Queries/Read.antt =====
-- How the handler reads a broadcast message of `sendQuery`.
use nyan_sd.Base.{
  ℕ, suc, ◌+◌, ◌-◌, ◌%◌, ◌^◌, ◌<◌, ◌≡◌, refl, ap, true, false, inl, List, [], ◌∷◌, ◌++◌, arith,
  length, take, take-long, ◌≤◌, All, length-append, append_assoc, ltb, le→ltb, lt→ltb, ◌==◌,
  if◌then◌else◌, equal_refl, Bytes,
}
use nyan_sd.ByteBauble.{BbEndianness, le_bytes}
use nyan_sd.ByteBauble.Order.{length-le_bytes}
use nyan_sd.Nyansd.{Query, signature, protocol_code}
use nyan_sd.Nyansd.Wire.{ok, At, write_uint-le_bytes, read8_lem, read_bytes_lem, read_uint_lem}
use nyan_sd.Nyansd.SendQuery.{query_section, query_sections, query_body, query_message}
use nyan_sd.Nyansd.Handler.{receive_size, received_bytes, query, parse_query, parse_broadcast}

abbrev pub FitsQuery : Query → Type 0
FitsQuery q = length q.filter < 256

pub parse_query-query_section :
    (q : Query) (buffer : Bytes) (index : ℕ) (rest : Bytes)
    → FitsQuery q
    → At buffer index (query_section q ++ rest)
    → (j : ℕ) × (parse_query buffer index ≡ ok (query q.filter j)) × At buffer j rest
unfolding parse_query query_section
parse_query-query_section q buffer i rest f h = go q.filter f h
  where
    go :
        (s : Bytes)
        → length s < 256
        → At buffer i (
            (b'Q'
              ∷ protocol_code q.protocol
              ∷ (length s % 256)
              ∷ (if ltb 0 (length s % 256) then s else []))
            ++ rest)
        → (j : ℕ) × (parse_query buffer i ≡ ok (query s j)) × At buffer j rest
    go [] f h =
        let (e0, a0) = read8_lem buffer i _ _ h in
        let (e1, a1) = read8_lem buffer _ _ _ a0 in
        let (e2, a2) = read8_lem buffer _ _ _ a1 in (_, rw (e0, e1, e2), a2)
    go (c ∷ cs) f h =
        let short : length (c ∷ cs) % 256 ≡ length (c ∷ cs) = omega arith in
        let h' : At buffer i
            (b'Q' ∷ protocol_code q.protocol ∷ length (c ∷ cs) ∷ (c ∷ cs ++ rest)) =
          rw (short, lt→ltb 0 (length (c ∷ cs)) (omega arith)) at h in
        let (e0, a0) = read8_lem buffer i _ _ h' in
        let (e1, a1) = read8_lem buffer _ _ _ a0 in
        let (e2, a2) = read8_lem buffer _ _ _ a1 in
        let (e3, a3) = read_bytes_lem buffer _ (c ∷ cs) rest a2 in
        let some_filter : (length (c ∷ cs) == 0) ≡ false = ground arith in
        (_, rw (e0, e1, e2, e3, some_filter), a3)

-- At least one query, and no more than the 2048 bytes of a server's buffer have room for: the
-- message takes ten bytes more than its query sections.
pub record FitsBroadcast (qs : List Query) : Type 0 where
  pub some_query : 0 < length qs
  pub count_fits : length qs < 256
  pub each_fits : All FitsQuery qs
  pub length_fits : length (query_sections qs) + 10 ≤ receive_size

pub take-all {ℓ} : {A : Type ℓ} (xs : List A) → take (length xs) xs ≡ xs
take-all [] = refl
take-all (x ∷ xs) = ap (◌∷◌ x) (take-all xs)

pub query_message-shape :
    (machine : BbEndianness) (qs : List Query)
    → length qs < 256
    → length (query_sections qs) + 2 < 256 ^ 2
    → query_message machine qs
      ≡ signature
        ++ (le_bytes 2 (length (query_sections qs) + 2) ++ (1 ∷ length qs ∷ query_sections qs))
unfolding query_message query_body
query_message-shape machine qs few short =
    rw (write_uint-le_bytes machine 2 _ (inl refl), count, take-all qs)
      (ap (λ n. signature ++ (le_bytes 2 n ++ (1 ∷ length qs ∷ query_sections qs))) long)
  where
    count : length qs % 256 ≡ length qs
    count = omega arith

    long : (suc (length (query_sections qs)) + 1) % 2 ^ 16 ≡ length (query_sections qs) + 2
    long = omega arith

pub length-query_message :
    (machine : BbEndianness) (qs : List Query)
    → length qs < 256
    → length (query_sections qs) + 2 < 256 ^ 2
    → length (query_message machine qs) ≡ length (query_sections qs) + 10
length-query_message machine qs few short = rw (query_message-shape machine qs few short) (
    omega (
      arith,
      length-append (le_bytes 2 (length (query_sections qs) + 2))
          (1 ∷ length qs ∷ query_sections qs),
      length-le_bytes 2 (length (query_sections qs) + 2),
    ))

-- The buffer has room for all of it.
pub received_bytes-query_message :
    (machine : BbEndianness) (qs : List Query)
    → FitsBroadcast qs
    → received_bytes (query_message machine qs) ≡ query_message machine qs
unfolding received_bytes
received_bytes-query_message machine qs f = take-long receive_size (query_message machine qs) (
    omega (
      arith,
      f.length_fits,
      length-query_message machine qs f.count_fits (omega (arith, f.length_fits)),
    ))

parse_broadcast-query_sections :
    (server : BbEndianness) (qs : List Query) (buffer : Bytes) (n : ℕ) (rest : Bytes)
    → FitsBroadcast qs
    → n ≡ length (query_sections qs) + 10
    → At buffer 0 (
        signature
        ++ (le_bytes 2 (length (query_sections qs) + 2)
            ++ (1 ∷ length qs ∷ (query_sections qs ++ rest))))
    → (parse_broadcast server buffer n ≡ ok (length qs, 10))
      × At buffer 10 (query_sections qs ++ rest)
unfolding parse_broadcast
parse_broadcast-query_sections server qs buffer n rest f e h =
    let (e0, a0) = read_bytes_lem buffer 0 signature _ h in
    let (e1, a1) =
      read_uint_lem server 2 (length (query_sections qs) + 2) buffer 6 _ (inl refl)
        (omega (arith, f.length_fits)) a0 in
    let (e2, a2) = read8_lem buffer 8 _ _ a1 in
    let (e3, a3) = read8_lem buffer 9 _ _ a2 in
    (rw (le→ltb n 10 (omega arith), e0, equal_refl signature, e1, full, e2, e3, some_query), a3)
  where
    full : (n - 8 == length (query_sections qs) + 2) ≡ true
    full = ground arith

    some_query : (length qs == 0) ≡ false
    some_query = ground (arith, f.some_query)

-- The handler reads the broadcast message of a client up to its query sections.
pub parse_broadcast-message :
    (client server : BbEndianness) (qs : List Query) (junk : Bytes)
    → FitsBroadcast qs
    → (parse_broadcast server (query_message client qs ++ junk) (length (query_message client qs))
        ≡ ok (length qs, 10))
      × At (query_message client qs ++ junk) 10 (query_sections qs ++ junk)
parse_broadcast-message client server qs junk g =
    parse_broadcast-query_sections server qs _ _ junk g
      (length-query_message client qs g.count_fits (omega (arith, g.length_fits)))
      (shape, omega arith)
  where
    shape :
        query_message client qs ++ junk
        ≡ signature
          ++ (le_bytes 2 (length (query_sections qs) + 2)
              ++ (1 ∷ length qs ∷ (query_sections qs ++ junk)))
    shape =
        rw (query_message-shape client qs g.count_fits (omega (arith, g.length_fits)))
          (simp append_assoc)
