-- ===== src/Nyansd/Handler/Queries.antt =====
-- What the handler sends for a broadcast message that `sendQuery` composed.
mod Read
pub use nyan_sd.Nyansd.Handler.Queries.Read.{
  FitsQuery, parse_query-query_section, FitsBroadcast, take-all, query_message-shape,
  length-query_message, received_bytes-query_message, parse_broadcast-message,
}
use nyan_sd.Base.{
  ℕ, zero, suc, ◌+◌, ◌-◌, ◌≡◌, refl, sym, ap, ◌∙◌, some, List, [], ◌∷◌, ◌++◌, arith, length, All,
  append_assoc, append-nil, map, Bytes,
}
use nyan_sd.ByteBauble.{BbEndianness}
use nyan_sd.Nyansd.{Service, Query}
use nyan_sd.Nyansd.LocalIp.{LocalIp}
use nyan_sd.Nyansd.Wire.{ok, At}
use nyan_sd.Nyansd.Response.Section.{section_list}
use nyan_sd.Nyansd.Response.Message.{message}
use nyan_sd.Nyansd.SendQuery.{query_section, query_sections, query_message}
use nyan_sd.Nyansd.Handler.{
  received_bytes, Answer, no_answer, answer_query, response_message, query, parse_query, done,
  handle_queries, handle_datagram,
}
use nyan_sd.Nyansd.Handler.Answers.{
  localize, Ready, answer_path, matching, answer_query-matching, answer_all-section_list,
  response_message-message,
}
use nyan_sd.Nyansd.Handler.Announced.{
  FitsServer, matching-All, length-matching, announced, FitsMessage-announced,
}

-- What is sent for a query by a server that has an address for all services.
abbrev pub reply : LocalIp → List Service → Query → Answer
reply local svs q = record {
  body = section_list (map (localize local) (matching q.filter svs));
  count = length (matching q.filter svs);
}

pub answer_query-reply :
    (machine : BbEndianness) (local : LocalIp) (svs : List Service)
    → FitsServer local svs
    → (q : Query) → answer_query machine local svs q.filter ≡ some (reply local svs q)
answer_query-reply machine local svs f q =
    answer_query-matching machine local svs q.filter
    ∙ answer_all-section_list machine local _ no_answer
        (matching-All (Ready local) q.filter svs f.ready)
        (omega (arith, f.count_fits, length-matching q.filter svs))
    ∙ ap some (answer_path refl (omega arith))

pub map-reply :
    (machine : BbEndianness) (local : LocalIp) (svs : List Service) (qs : List Query)
    → FitsServer local svs
    → map (λ q. response_message machine (reply local svs q)) qs
      ≡ map (λ q. message (announced local svs q)) qs
unfolding announced
map-reply machine local svs [] f = refl
map-reply machine local svs (q ∷ qs) f =
    rw
      (
        response_message-message machine local (matching q.filter svs)
            (FitsMessage-announced local svs q f),
        map-reply machine local svs qs f,
      )
      refl

-- What the handler makes of the services for each query.
module _ (machine : BbEndianness) (local : LocalIp) (svs : List Service) (answer : Query → Answer)
    (each : (q : Query) → answer_query machine local svs q.filter ≡ some (answer q)) where
  handle_queries-step :
      (q : Query) (rounds : ℕ) (buffer : Bytes) (i j : ℕ) (sent : List Bytes)
      → parse_query buffer i ≡ ok (query q.filter j)
      → handle_queries machine local svs buffer (suc rounds) i sent
        ≡ handle_queries machine local svs buffer rounds j
            (sent ++ response_message machine (answer q) ∷ [])
  unfolding handle_queries
  handle_queries-step q rounds buffer i j sent e = rw (e, each q) refl

  -- The response for a query is sent, and the loop goes on behind it.
  pub handle_queries-more :
      (qs : List Query) (rounds more : ℕ) (buffer : Bytes) (index : ℕ) (sent : List Bytes)
      (rest : Bytes)
      → rounds ≡ length qs + more
      → All FitsQuery qs
      → At buffer index (query_sections qs ++ rest)
      → (j : ℕ) × (handle_queries machine local svs buffer rounds index sent
          ≡ handle_queries machine local svs buffer more j
              (sent ++ map (λ q. response_message machine (answer q)) qs))
        × At buffer j rest
  unfolding query_sections
  handle_queries-more [] rounds more buffer i sent rest n fs h =
      let none_left : rounds ≡ more = omega (arith, n) in
      (
        i,
        ap (λ k. handle_queries machine local svs buffer k i sent) none_left
            ∙ ap (handle_queries machine local svs buffer more i) (sym (append-nil sent)),
        h,
      )
  handle_queries-more (q ∷ qs) zero more buffer i sent rest n fs h = absurd (omega arith)
  handle_queries-more (q ∷ qs) (suc rounds) more buffer i sent rest n (f, fs) h =
      let (j, e, a) =
        parse_query-query_section q buffer i (query_sections qs ++ rest) f
          (rw (append_assoc (query_section q) (query_sections qs) rest) at h) in
      let (k, e', a') =
        handle_queries-more qs rounds more buffer j
          (sent ++ response_message machine (answer q) ∷ []) rest (omega arith) fs a in
      (
        k,
        handle_queries-step q rounds buffer i j sent e
            ∙ e'
            ∙ ap (handle_queries machine local svs buffer more k)
                (append_assoc sent (response_message machine (answer q) ∷ []) _),
        a',
      )

  -- The handler answers the broadcast message of a client of either byte order with one response
  -- for each query, in order.
  pub handle_datagram-answers :
      (client : BbEndianness) (qs : List Query) (junk : Bytes)
      → FitsBroadcast qs
      → let received = received_bytes (query_message client qs) in
        handle_datagram machine local svs (received ++ junk) (length received)
        ≡ done (map (λ q. response_message machine (answer q)) qs)
  unfolding handle_datagram handle_queries
  handle_datagram-answers client qs junk g =
      let buffer = query_message client qs ++ junk in
      let (e, a) = parse_broadcast-message client machine qs junk g in
      let (_, e', _) =
        handle_queries-more qs (length qs) 0 buffer 10 [] junk (omega arith) g.each_fits a in
      rw (received_bytes-query_message client qs g, e) e'

-- A server of either byte order answers the broadcast message of a client of either byte order
-- with one response message for each query, in order: it announces the registered services that
-- match the query: all for one without a filter, else those whose name is exactly the filter, in
-- the order of registration. The first 2048 bytes of the message come into its buffer; what else
-- that holds has no effect. The queries' message fits the buffer, and the services one message.
pub handle_datagram-query_message :
    (client server : BbEndianness) (local : LocalIp) (svs : List Service) (qs : List Query)
    (junk : Bytes)
    → FitsServer local svs
    → FitsBroadcast qs
    → let received = received_bytes (query_message client qs) in
      handle_datagram server local svs (received ++ junk) (length received)
      ≡ done (map (λ q. message (announced local svs q)) qs)
handle_datagram-query_message client server local svs qs junk f g =
    handle_datagram-answers server local svs (reply local svs)
      (answer_query-reply server local svs f) client qs junk g
    ∙ ap done (map-reply server local svs qs f)
