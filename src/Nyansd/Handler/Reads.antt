-- ===== src/Nyansd/Handler/Reads.antt =====
-- When the handler reads outside its buffer.
use nyan_sd.Base.{
  ℕ, zero, suc, ◌+◌, ◌-◌, ◌*◌, ◌^◌, ◌<◌, ◌≤◌, ◌≡◌, refl, ap, false, inl, Option, none, some, List,
  [], ◌∷◌, ◌++◌, arith, length, length-drop, leb, le→ltb, ==_refl, equal_refl, map, ◌==◌, All,
  Bytes, IsByte, drop,
}
use nyan_sd.ByteBauble.{BbEndianness, le_bytes}
use nyan_sd.Nyansd.{Service, Query, signature}
use nyan_sd.Nyansd.LocalIp.{LocalIp}
use nyan_sd.Nyansd.Wire.{
  Scan, ok, refused, fault, At, read8, read8_lem, read_bytes, read_bytes_lem, read_uint_lem,
  read_uint,
}
use nyan_sd.Nyansd.SendQuery.{query_sections}
use nyan_sd.Nyansd.Response.Message.{message}
use nyan_sd.Nyansd.Handler.Announced.{FitsServer, announced}
use nyan_sd.Nyansd.Handler.Queries.{
  FitsQuery, reply, answer_query-reply, map-reply, handle_queries-more,
}
use nyan_sd.Nyansd.Handler.{
  Answer, answer_query, QuerySection, invalid, query, parse_query, Handled, done, terminated,
  crashed, receive_size, handle_queries, respond, after_query, parse_broadcast, after_broadcast,
  handle_datagram,
}

-- A query section takes at most 3 bytes and a filter of 255.
abbrev Advances : ℕ → Scan QuerySection → Type 0
Advances i (ok invalid) = Unit
Advances i (ok (query filter j)) = j ≤ i + 258
Advances i refused = ⊥
Advances i fault = ⊥

parse_query-Advances :
    (buffer : Bytes) (i : ℕ)
    → All IsByte (drop i buffer)
    → i + 258 ≤ length buffer
    → Advances i (parse_query buffer i)
unfolding parse_query read_bytes
parse_query-Advances buffer i bytes room = go (drop i buffer) refl bytes
  where
    go : (rest : Bytes) → drop i buffer ≡ rest → All IsByte rest → Advances i (parse_query buffer i)
    go (b0 ∷ b1 ∷ b2 ∷ rest) e (h0, (h1, (h2, h))) =
        let (e0, a0) = read8_lem buffer i b0 (b1 ∷ b2 ∷ rest) (e, omega arith) in
        let (e1, a1) = read8_lem buffer (i + 1) b1 (b2 ∷ rest) a0 in
        let (e2, a2) = read8_lem buffer (i + 1 + 1) b2 rest a1 in
        rw (e0, e1, e2) (ground (arith, a2))
    go _ e h = absurd (omega (arith, ap length e, length-drop i buffer))

All-drop {ℓ κ} : {A : Type ℓ} (P : A → Type κ) (n : ℕ) (xs : List A) → All P xs → All P (drop n xs)
All-drop P zero xs h = h
All-drop P (suc n) [] h = h
All-drop P (suc n) (x ∷ xs) (h, hs) = All-drop P n xs hs

-- The handler has not read outside its buffer.
abbrev pub StaysInside : Handled → Type 0
StaysInside (done ms) = Unit
StaysInside (terminated ms) = Unit
StaysInside (crashed ms) = ⊥

module _ (machine : BbEndianness) (local : LocalIp) (svs : List Service) (buffer : Bytes) where
  after_query-StaysInside :
      (i : ℕ) (sent : List Bytes) (next : ℕ → List Bytes → Handled) (q : Scan QuerySection)
      → Advances i q
      → ((j : ℕ) (ms : List Bytes) → j ≤ i + 258 → StaysInside (next j ms))
      → StaysInside (after_query machine local svs i sent next q)
  unfolding after_query respond
  after_query-StaysInside i sent next (ok invalid) h k = k i sent (omega arith)
  after_query-StaysInside i sent next (ok (query filter j)) h k =
      go (answer_query machine local svs filter)
    where
      go : (o : Option Answer) → StaysInside (respond machine o sent (next j))
      go none = tt
      go (some a) = k j _ h
  after_query-StaysInside i sent next refused h k = absurd h
  after_query-StaysInside i sent next fault h k = absurd h

  handle_queries-StaysInside :
      (rounds i : ℕ) (sent : List Bytes)
      → All IsByte buffer
      → i + rounds * 258 ≤ length buffer
      → StaysInside (handle_queries machine local svs buffer rounds i sent)
  unfolding handle_queries
  handle_queries-StaysInside zero i sent bytes room = tt
  handle_queries-StaysInside (suc rounds) i sent bytes room =
      after_query-StaysInside i sent (handle_queries machine local svs buffer rounds)
        (parse_query buffer i)
        (parse_query-Advances buffer i (All-drop IsByte i buffer bytes) (omega arith))
        (λ j ms near. handle_queries-StaysInside rounds j ms bytes (omega (arith, near)))

-- The tenth byte of a buffer: the count of queries of a broadcast message.
abbrev pub count_byte : Bytes → ℕ
count_byte (_ ∷ _ ∷ _ ∷ _ ∷ _ ∷ _ ∷ _ ∷ _ ∷ _ ∷ b ∷ _) = b
count_byte _ = 0

-- The checks before the query sections read ten bytes, the last for the count.
abbrev pub Starts : ℕ → Scan (ℕ × ℕ) → Type 0
Starts count (ok (c, i)) = (c ≡ count) × (i ≡ 10)
Starts count refused = Unit
Starts count fault = ⊥

pub parse_broadcast-Starts :
    (machine : BbEndianness) (buffer : Bytes) (n : ℕ)
    → 10 ≤ length buffer
    → Starts (count_byte buffer) (parse_broadcast machine buffer n)
unfolding parse_broadcast read_uint read8
parse_broadcast-Starts machine (b0 ∷ b1 ∷ b2 ∷ b3 ∷ b4 ∷ b5 ∷ b6 ∷ b7 ∷ b8 ∷ b9 ∷ rest) n room =
    let buffer : Bytes = b0 ∷ b1 ∷ b2 ∷ b3 ∷ b4 ∷ b5 ∷ b6 ∷ b7 ∷ b8 ∷ b9 ∷ rest in
    let (e0, a0) =
      read_bytes_lem buffer 0 (b0 ∷ b1 ∷ b2 ∷ b3 ∷ b4 ∷ b5 ∷ []) _ (refl, omega arith) in
    let (e1, a1) = read_bytes_lem buffer 6 (b6 ∷ b7 ∷ []) _ a0 in rw (e0, e1) (ground arith)
parse_broadcast-Starts machine _ n room = absurd (omega arith)

-- Whatever bytes the 2048 bytes of the buffer are, and however many of them were received: with a
-- count of at most 7 queries the handler reads nothing outside the buffer.
pub handle_datagram-StaysInside :
    (machine : BbEndianness) (local : LocalIp) (svs : List Service) (buffer : Bytes) (n : ℕ)
    → All IsByte buffer
    → length buffer ≡ receive_size
    → count_byte buffer ≤ 7
    → StaysInside (handle_datagram machine local svs buffer n)
unfolding handle_datagram
handle_datagram-StaysInside machine local svs buffer n bytes size few =
    go (parse_broadcast machine buffer n) (parse_broadcast-Starts machine buffer n (omega arith))
  where
    go :
        (r : Scan (ℕ × ℕ))
        → Starts (count_byte buffer) r
        → StaysInside (after_broadcast machine local svs buffer r)
    go (ok (c, i)) (ec, ei) =
        unfold after_broadcast in
        handle_queries-StaysInside machine local svs buffer c i [] bytes (omega arith)
    go refused h = unfold after_broadcast in tt
    go fault h = absurd h

-- The start of a broadcast message in a buffer: with the count of queries that is said, then some
-- queries, then the start of one more with a filter of `qlen` bytes.
abbrev pub BroadcastThen : Bytes → ℕ → ℕ → List Query → ℕ → Bytes → Type 0
BroadcastThen buffer n count qs qlen rest =
    (prot : ℕ) × (buffer
      ≡ signature
        ++ (le_bytes 2 (n - 8) ++ (1 ∷ count ∷ (query_sections qs ++ (b'Q' ∷ prot ∷ qlen ∷ rest)))))

parse_broadcast-said :
    (machine : BbEndianness) (n count : ℕ) (buffer behind : Bytes)
    → 10 ≤ n
    → n - 8 < 256 ^ 2
    → 0 < count
    → At buffer 0 (signature ++ (le_bytes 2 (n - 8) ++ (1 ∷ count ∷ behind)))
    → (parse_broadcast machine buffer n ≡ ok (count, 10)) × At buffer 10 behind
unfolding parse_broadcast
parse_broadcast-said machine n count buffer behind long fits some_query h =
    let (e0, a0) = read_bytes_lem buffer 0 signature _ h in
    let (e1, a1) = read_uint_lem machine 2 (n - 8) buffer 6 _ (inl refl) fits a0 in
    let (e2, a2) = read8_lem buffer 8 _ _ a1 in
    let (e3, a3) = read8_lem buffer 9 _ _ a2 in
    let counted : (count == 0) ≡ false = ground arith in
    (rw (le→ltb n 10 long, e0, equal_refl signature, e1, ==_refl (n - 8), e2, e3, counted), a3)

parse_query-overread :
    (buffer : Bytes) (i prot qlen : ℕ) (rest : Bytes)
    → At buffer i (b'Q' ∷ prot ∷ qlen ∷ rest)
    → length rest < qlen
    → parse_query buffer i ≡ fault
unfolding parse_query read_bytes
parse_query-overread buffer i prot qlen rest h few =
    let (e0, a0) = read8_lem buffer i _ _ h in
    let (e1, a1) = read8_lem buffer (i + 1) _ _ a0 in
    let (e2, a2) = read8_lem buffer (i + 1 + 1) _ _ a1 in
    let filtered : (qlen == 0) ≡ false = ground arith in
    let outside : leb (i + 1 + 1 + 1 + qlen) (length buffer) ≡ false =
      ground (arith, length-drop (i + 1 + 1 + 1) buffer, ap length a2.0) in
    rw (e0, e1, e2, filtered, outside)

-- A broadcast message whose queries, as far as they fit the buffer, are followed by one more with a
-- filter that is said to be longer than the rest of the buffer makes the handler read outside it,
-- after it has answered the others. That happens to a buffer of 2048 bytes from 8 queries on, where
-- filters are as long as they can be.
pub handle_datagram-overread :
    (machine : BbEndianness) (local : LocalIp) (svs : List Service) (qs : List Query)
    (buffer : Bytes) (n count qlen : ℕ) (rest : Bytes)
    → FitsServer local svs
    → All FitsQuery qs
    → BroadcastThen buffer n count qs qlen rest
    → length qs < count
    → 10 ≤ n
    → n - 8 < 256 ^ 2
    → length rest < qlen
    → handle_datagram machine local svs buffer n
      ≡ crashed (map (λ q. message (announced local svs q)) qs)
unfolding handle_datagram after_broadcast
handle_datagram-overread machine local svs qs buffer n count qlen rest f fs (prot, form) more long
      fits few =
    let (e, a) =
      parse_broadcast-said machine n count buffer _ long fits (omega arith) (form, omega arith) in
    let (j, e', a') =
      handle_queries-more machine local svs (reply local svs)
        (answer_query-reply machine local svs f) qs count (suc (count - length qs - 1)) buffer 10 []
        _ (omega arith) fs a in
    rw (e, e', map-reply machine local svs qs f)
      (unfold handle_queries after_query in
        rw (parse_query-overread buffer j prot qlen rest a' few))
