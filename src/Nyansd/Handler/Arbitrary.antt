-- ===== src/Nyansd/Handler/Arbitrary.antt =====
-- What the handler does with a datagram of any bytes.
use nyan_sd.Base.{
  ℕ, zero, suc, ◌+◌, ◌-◌, ◌%◌, ◌^◌, ◌<◌, ◌≤◌, ◌≡◌, refl, ap, ◌∙◌, ◌⊎◌, inl, inr, Option, none, some,
  List, [], ◌∷◌, ◌++◌, arith, length, All, All-append, length-append, equal_iff, Bytes, IsByte,
}
use nyan_sd.ByteBauble.{BbEndianness, le_bytes, of_le}
use nyan_sd.ByteBauble.Order.{to_host-load, le_bytes-of_le}
use nyan_sd.Nyansd.{Service, signature}
use nyan_sd.Nyansd.LocalIp.{LocalIp, found, missing, thrown}
use nyan_sd.Nyansd.Wire.{
  Scan, ok, refused, fault, At, read_bytes, read_uint, read8, read8_lem, read_bytes_lem,
  write_uint-le_bytes,
}
use nyan_sd.Nyansd.Handler.Answers.{matching, answer_query-matching}
use nyan_sd.Nyansd.Handler.{
  Answer, no_answer, append_service, answer_all, bind, answer_query, response_message, QuerySection,
  invalid, query, parse_query, Handled, messages_sent, handle_queries, respond, after_query,
  parse_broadcast, after_broadcast, handle_datagram,
}

read_uint_any :
    (machine : BbEndianness) (a b : ℕ) (buffer : Bytes) (index : ℕ) (rest : Bytes)
    → a < 256
    → b < 256
    → At buffer index (a ∷ b ∷ rest)
    → (read_uint machine 2 buffer index ≡ ok (of_le (a ∷ b ∷ []))) × At buffer (index + 2) rest
unfolding read_uint
read_uint_any machine a b buffer i rest ha hb h =
    let (e, a') = read_bytes_lem buffer i (a ∷ b ∷ []) rest h in
    (rw e (ap ok (to_host-load machine 2 (a ∷ b ∷ []) (inl refl) refl (ha, (hb, tt)))), a')

-- A broadcast message in the first `n` bytes, as far as the handler looks at it before the
-- queries: their number is `count`.
pub record IsBroadcast (buffer : Bytes) (n count : ℕ) : Type 0 where
  pub long : 10 ≤ n
  pub some_query : 0 < count
  pub byte : count < 256
  pub behind : Bytes
  pub form : buffer ≡ signature ++ (le_bytes 2 (n - 8) ++ (1 ∷ count ∷ behind))

header_fields :
    (machine : BbEndianness) (b0 b1 b2 b3 b4 b5 b6 b7 b8 b9 : ℕ) (rest : Bytes) (n count i : ℕ)
    → All IsByte (b0 ∷ b1 ∷ b2 ∷ b3 ∷ b4 ∷ b5 ∷ b6 ∷ b7 ∷ b8 ∷ b9 ∷ rest)
    → parse_broadcast machine (b0 ∷ b1 ∷ b2 ∷ b3 ∷ b4 ∷ b5 ∷ b6 ∷ b7 ∷ b8 ∷ b9 ∷ rest) n
      ≡ ok (count, i)
    → (10 ≤ n)
      × ((b0 ∷ b1 ∷ b2 ∷ b3 ∷ b4 ∷ b5 ∷ []) ≡ signature)
      × (n - 8 ≡ of_le (b6 ∷ b7 ∷ []))
      × (b8 ≡ 1)
      × (b9 ≡ count)
      × (0 < count)
unfolding parse_broadcast
header_fields machine b0 b1 b2 b3 b4 b5 b6 b7 b8 b9 rest n count i
      (_, (_, (_, (_, (_, (_, (h6, (h7, more)))))))) h =
    let buffer : Bytes = b0 ∷ b1 ∷ b2 ∷ b3 ∷ b4 ∷ b5 ∷ b6 ∷ b7 ∷ b8 ∷ b9 ∷ rest in
    let (e0, a0) =
      read_bytes_lem buffer 0 (b0 ∷ b1 ∷ b2 ∷ b3 ∷ b4 ∷ b5 ∷ []) _ (refl, omega arith) in
    let (e1, a1) = read_uint_any machine b6 b7 buffer 6 _ h6 h7 a0 in
    let (e2, a2) = read8_lem buffer 8 b8 _ a1 in
    let (e3, a3) = read8_lem buffer 9 b9 _ a2 in
    let h' = rw (e0, e1, e2, e3) at h in
    ground (arith, equal_iff (b0 ∷ b1 ∷ b2 ∷ b3 ∷ b4 ∷ b5 ∷ []) signature)

pub parse_broadcast-IsBroadcast :
    (machine : BbEndianness) (buffer : Bytes) (n count i : ℕ)
    → All IsByte buffer
    → parse_broadcast machine buffer n ≡ ok (count, i)
    → IsBroadcast buffer n count
unfolding parse_broadcast read_bytes read_uint read8
parse_broadcast-IsBroadcast machine (b0 ∷ b1 ∷ b2 ∷ b3 ∷ b4 ∷ b5 ∷ b6 ∷ b7 ∷ b8 ∷ b9 ∷ rest) n count
      i bytes h =
    let (long, sig, len, type, number, some_query) =
      header_fields machine b0 b1 b2 b3 b4 b5 b6 b7 b8 b9 rest n count i bytes h in
    let (_, (_, (_, (_, (_, (_, (h6, (h7, (_, (h9, _)))))))))) = bytes in
    let pair : le_bytes 2 (n - 8) ≡ b6 ∷ b7 ∷ [] =
      ap (le_bytes 2) len ∙ le_bytes-of_le (b6 ∷ b7 ∷ []) (h6, (h7, tt)) in
    record {
      long = long;
      some_query = some_query;
      byte = omega arith;
      behind = rest;
      form = ap (λ xs. xs ++ (b6 ∷ b7 ∷ b8 ∷ b9 ∷ rest)) sig ∙ rw (pair, type, number);
    }
parse_broadcast-IsBroadcast machine _ n count i bytes h = absurd (ground arith)

-- A response message: a count of one byte, and a length field of 16 bits for what follows it.
pub record IsResponse (m : Bytes) : Type 0 where
  pub count : ℕ
  pub count_fits : count < 256
  pub body : Bytes
  pub form : m ≡ signature ++ (le_bytes 2 ((length body + 2) % 2 ^ 16) ++ (2 ∷ count ∷ body))

-- The count is that of a uint8_t.
abbrev Counted : Option Answer → Type 0
Counted none = Unit
Counted (some a) = a.count < 256

append_service-Counted :
    (machine : BbEndianness) (local : LocalIp) (sv : Service) (a : Answer)
    → a.count < 256
    → Counted (append_service machine local sv a)
unfolding append_service
append_service-Counted machine missing sv a h = ground arith
append_service-Counted machine thrown sv a h = ground arith
append_service-Counted machine (found v4 v6) sv a h = ground arith

bind-Counted :
    (o : Option Answer) (f : Answer → Option Answer)
    → Counted o
    → ((a : Answer) → a.count < 256 → Counted (f a))
    → Counted (bind o f)
unfolding bind
bind-Counted none f h k = tt
bind-Counted (some a) f h k = k a h

answer_all-Counted :
    (machine : BbEndianness) (local : LocalIp) (svs : List Service) (a : Answer)
    → a.count < 256
    → Counted (answer_all machine local svs a)
unfolding answer_all
answer_all-Counted machine local [] a h = h
answer_all-Counted machine local (sv ∷ svs) a h =
    bind-Counted (append_service machine local sv a) _ (append_service-Counted machine local sv a h)
      (λ a' h'. answer_all-Counted machine local svs a' h')

answer_query-Counted :
    (machine : BbEndianness) (local : LocalIp) (svs : List Service) (filter : Bytes)
    → Counted (answer_query machine local svs filter)
answer_query-Counted machine local svs filter =
    rw (answer_query-matching machine local svs filter)
      (answer_all-Counted machine local (matching filter svs) no_answer (omega arith))

response_message-IsResponse :
    (machine : BbEndianness) (a : Answer) → a.count < 256 → IsResponse (response_message machine a)
unfolding response_message
response_message-IsResponse machine a h = record {
  count = a.count;
  count_fits = h;
  body = a.body;
  form =
      rw (write_uint-le_bytes machine 2 ((1 + (length a.body + 1)) % 2 ^ 16) (inl refl))
        (ap (λ k. signature ++ (le_bytes 2 k ++ (2 ∷ a.count ∷ a.body))) (omega arith));
}

-- Messages that are responses, no more than `k` of them.
abbrev pub Responses : ℕ → List Bytes → Type 0
Responses k ms = All IsResponse ms × (length ms ≤ k)

module _ (machine : BbEndianness) (local : LocalIp) (svs : List Service) (buffer : Bytes) where
  respond-Responses :
      (k l : ℕ) (o : Option Answer) (sent : List Bytes) (next : List Bytes → Handled)
      → Counted o
      → Responses k sent
      → k ≤ l
      → ((ms : List Bytes) → Responses (suc k) ms → Responses l (messages_sent (next ms)))
      → Responses l (messages_sent (respond machine o sent next))
  unfolding respond
  respond-Responses k l none sent next c (r, few) h later = (r, omega arith)
  respond-Responses k l (some a) sent next c (r, few) h later =
      later (sent ++ response_message machine a ∷ []) (
        All-append IsResponse sent (response_message machine a ∷ []) r
            (response_message-IsResponse machine a c, tt),
        omega (arith, length-append sent (response_message machine a ∷ [])),
      )

  after_query-Responses :
      (k l index : ℕ) (sent : List Bytes) (next : ℕ → List Bytes → Handled) (q : Scan QuerySection)
      → Responses k sent
      → k < l
      → ((i : ℕ) (ms : List Bytes) → Responses (suc k) ms → Responses l (messages_sent (next i ms)))
      → Responses l (messages_sent (after_query machine local svs index sent next q))
  unfolding after_query
  after_query-Responses k l index sent next (ok invalid) (r, few) h later =
      later index sent (r, omega arith)
  after_query-Responses k l index sent next (ok (query filter j)) (r, few) h later =
      respond-Responses k l (answer_query machine local svs filter) sent (next j)
        (answer_query-Counted machine local svs filter) (r, few) (omega arith) (later j)
  after_query-Responses k l index sent next refused (r, few) h later =
      later index sent (r, omega arith)
  after_query-Responses k l index sent next fault (r, few) h later = (r, omega arith)

  -- Each round sends at most one response.
  handle_queries-Responses :
      (rounds index k : ℕ) (sent : List Bytes)
      → Responses k sent
      → Responses
          (k + rounds)
          (messages_sent (handle_queries machine local svs buffer rounds index sent))
  unfolding handle_queries
  handle_queries-Responses zero index k sent (r, few) = (r, omega arith)
  handle_queries-Responses (suc rounds) index k sent h =
      after_query-Responses k (k + suc rounds) index sent
        (handle_queries machine local svs buffer rounds) (parse_query buffer index) h (omega arith)
        (λ i ms r.
          let (r', few') = handle_queries-Responses rounds i (suc k) ms r in (r', omega arith))

-- Whatever a buffer of bytes holds, the handler sends nothing, unless the buffer starts with a
-- broadcast message of one or more queries whose length field is that of a datagram of `n` bytes;
-- then it sends no more messages than the message's count of queries, which is below 256, and each
-- is a response message with the length field for its length, modulo 2 ^ 16.
pub handle_datagram-Responses :
    (machine : BbEndianness) (local : LocalIp) (svs : List Service) (buffer : Bytes) (n : ℕ)
    → All IsByte buffer
    → let sent = messages_sent (handle_datagram machine local svs buffer n) in
      (sent ≡ []) ⊎ ((count : ℕ) × IsBroadcast buffer n count × Responses count sent)
unfolding handle_datagram after_broadcast
handle_datagram-Responses machine local svs buffer n bytes =
    go (parse_broadcast machine buffer n)
      (λ c i. parse_broadcast-IsBroadcast machine buffer n c i bytes)
  where
    go :
        (r : Scan (ℕ × ℕ))
        → ((c i : ℕ) → r ≡ ok (c, i) → IsBroadcast buffer n c)
        → (messages_sent (after_broadcast machine local svs buffer r) ≡ [])
          ⊎ ((count : ℕ) × IsBroadcast buffer n count
              × Responses count (messages_sent (after_broadcast machine local svs buffer r)))
    go refused h = inl refl
    go fault h = inl refl
    go (ok (c, i)) h =
        let (r, few) =
          handle_queries-Responses machine local svs buffer c i 0 [] (tt, omega arith) in
        inr (c, h c i refl, (r, omega arith))
