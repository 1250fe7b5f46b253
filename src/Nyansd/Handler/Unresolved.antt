-- ===== src/Nyansd/Handler/Unresolved.antt =====
-- The handler's answer when the local address cannot be found for the sender.
use nyan_sd.Base.{
  ℕ, ◌+◌, ◌<◌, ◌≤◌, ◌≡◌, refl, sym, map, length, ap, ◌∙◌, Bool-cases, inl, inr, some, List, [], ◌∷◌,
  ◌++◌, arith, All, append_assoc, append-nil, ◌==◌, if◌then◌else◌, Bytes,
}
use nyan_sd.ByteBauble.{BbEndianness}
use nyan_sd.Nyansd.{Service, Query, FitsSection}
use nyan_sd.Nyansd.LocalIp.{af_inet, Address, missing}
use nyan_sd.Nyansd.LocalIp.Found.{IsOnNoInterface, remote_to_local_ip-missing}
use nyan_sd.Nyansd.LocalIp.Origin.{IsWithout, before_last-IsWithout}
use nyan_sd.Nyansd.SendQuery.{query_message}
use nyan_sd.Nyansd.Response.Section.{section}
use nyan_sd.Nyansd.Handler.{
  Answer, no_answer, append_service, answer_all, bind, answer_query, response_message, done,
  client_handler, received_bytes,
}
use nyan_sd.Nyansd.Handler.Answers.{
  parts-section, answer_path, extended, matching, answer_query-matching,
}
use nyan_sd.Nyansd.Handler.Announced.{matching-All, length-matching}
use nyan_sd.Nyansd.Handler.Queries.{FitsBroadcast, handle_datagram-answers}

-- A service with an address of its own is appended; of any other only the letter "S" is.
abbrev pub piece : Service → Bytes
piece sv = if sv.ipv4 == 0 then b'S' ∷ [] else section sv

unfoldable pub pieces : List Service → Bytes
pieces [] = []
pieces (sv ∷ svs) = piece sv ++ pieces svs

-- How many services have an address of their own.
unfoldable pub addressed : List Service → ℕ
addressed [] = 0
addressed (sv ∷ svs) = (if sv.ipv4 == 0 then 0 else 1) + addressed svs

-- If the sender's network is on no interface, each service without an address of its own leaves a
-- letter "S" in the answer, in front of the sections that follow, and is not counted; the others
-- are appended and counted as usual. The services' fields are in bounds, and so is the number of
-- sections.
pub answer_all-missing :
    (machine : BbEndianness) (svs : List Service) (a : Answer)
    → All FitsSection svs
    → a.count + addressed svs < 256
    → answer_all machine missing svs a
      ≡ some (record { body = a.body ++ pieces svs; count = a.count + addressed svs })
unfolding answer_all pieces addressed append_service bind
answer_all-missing machine [] a f few =
    ap some (answer_path (sym (append-nil a.body)) (omega arith))
answer_all-missing machine (sv ∷ svs) a (f, fs) few = elim (Bool-cases (sv.ipv4 == 0)) [
  | inl unset ↦
      let few' : a.count + (0 + addressed svs) < 256 = rw unset at few in
      rw unset (
        answer_all-missing machine svs (record a { body = a.body ++ b'S' ∷ [] }) fs (omega arith)
        ∙ ap some (answer_path (append_assoc a.body (b'S' ∷ []) (pieces svs)) (omega arith)))
  | inr own ↦
      let few' : a.count + (1 + addressed svs) < 256 = rw own at few in
      rw own (
        ap (λ s. answer_all machine missing svs (extended a s)) (parts-section machine sv f)
        ∙ answer_all-missing machine svs (extended a (section sv)) fs (omega arith)
        ∙ ap some (answer_path (append_assoc a.body (section sv) (pieces svs)) (omega arith)))
]

addressed-length : (svs : List Service) → addressed svs ≤ length svs
unfolding addressed
addressed-length [] = omega arith
addressed-length (sv ∷ svs) = ground (arith, addressed-length svs)

-- What the handler answers to a query from an address that it finds on no interface.
abbrev pub unresolved : List Service → Query → Answer
unresolved svs q = record {
  body = pieces (matching q.filter svs);
  count = addressed (matching q.filter svs);
}

answer_query-unresolved :
    (machine : BbEndianness) (svs : List Service)
    → All FitsSection svs
    → length svs < 256
    → (q : Query) → answer_query machine missing svs q.filter ≡ some (unresolved svs q)
answer_query-unresolved machine svs f few q =
    answer_query-matching machine missing svs q.filter
    ∙ answer_all-missing machine (matching q.filter svs) no_answer
        (matching-All FitsSection q.filter svs f)
        (omega (arith, few, length-matching q.filter svs, addressed-length (matching q.filter svs)))
    ∙ ap some (answer_path refl (omega arith))

-- A client whose IPv4 address, up to its last dot, begins no address of any interface of the server
-- is answered all the same: by one response for each of its queries, in which each matching service
-- without an address of its own is no more than a letter "S" and is not counted. The services'
-- fields are in bounds, and there are at most 255 of them; the queries fit.
pub client_handler-elsewhere :
    (client server : BbEndianness) (net host : Bytes) (uninit : ℕ)
    (interfaces : List (List Address)) (svs : List Service) (qs : List Query) (junk : Bytes)
    → IsWithout b'.' host
    → IsOnNoInterface (net ++ b'.' ∷ []) interfaces
    → All FitsSection svs
    → length svs < 256
    → FitsBroadcast qs
    → let received = received_bytes (query_message client qs) in
      client_handler server interfaces
        (record { family = af_inet; text = net ++ (b'.' ∷ host) })
        uninit
        svs
        (received ++ junk)
        (length received)
      ≡ done (map (λ q. response_message server (unresolved svs q)) qs)
unfolding client_handler
client_handler-elsewhere client server net host uninit interfaces svs qs junk h off f few g =
    let e =
      remote_to_local_ip-missing server net host interfaces uninit []
        (before_last-IsWithout b'.' host h) off in
    rw e (
      handle_datagram-answers server missing svs (unresolved svs)
        (answer_query-unresolved server svs f few) client qs junk g)
