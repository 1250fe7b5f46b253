-- ===== src/Nyansd/Handler/Shared/Snapshots.antt =====
-- Each response tells of the registry at one moment.
use nyan_sd.Base.{
  ℕ, zero, suc, ◌≡◌, refl, sym, ap, ◌∙◌, ◌||◌, inl, inr, Bool-cases, List, [], ◌∷◌, ◌++◌, length,
  All, append-nil, append_assoc, ◌==◌, Bytes,
}
use nyan_sd.ByteBauble.{BbEndianness}
use nyan_sd.Nyansd.{Service, Query}
use nyan_sd.Nyansd.LocalIp.{LocalIp}
use nyan_sd.Nyansd.Wire.{At}
use nyan_sd.Nyansd.Registry.{empty, add_service}
use nyan_sd.Nyansd.SendQuery.{query_section, query_sections, query_message}
use nyan_sd.Nyansd.Response.Message.{message}
use nyan_sd.Nyansd.Handler.{done, received_bytes}
use nyan_sd.Nyansd.Handler.Answers.{matching, response_message-message}
use nyan_sd.Nyansd.Handler.Announced.{FitsServer, announced, FitsMessage-announced}
use nyan_sd.Nyansd.Handler.Queries.{
  FitsQuery, parse_query-query_section, answer_query-reply, FitsBroadcast,
  received_bytes-query_message, parse_broadcast-message,
}
use nyan_sd.Nyansd.Handler.Shared.{
  add_services, handle_queries_shared, after_broadcast_shared, handle_datagram_shared,
}

-- The registry as the handler finds it for each of `n` queries.
unfoldable pub snapshots : Bytes → (ℕ → List Service) → ℕ → List Service → ℕ → List (List Service)
snapshots host_name calls k svs zero = []
snapshots host_name calls k svs (suc n) =
    let svs' = add_services host_name (calls k) svs in
    svs' ∷ snapshots host_name calls (suc k) svs' n

-- Each registry is the one before with services added at the end.
abbrev pub Grows : List Service → List (List Service) → Type 0
Grows svs [] = Unit
Grows svs (s ∷ ss) = ((added : List Service) × (s ≡ svs ++ added)) × Grows s ss

add_service-append :
    (host_name : Bytes) (sv : Service) (svs : List Service)
    → (added : List Service) × ((add_service host_name sv svs).1 ≡ svs ++ added)
unfolding add_service
add_service-append host_name sv svs = elim (Bool-cases (sv.port == 0 || empty sv.service)) [
  | inl refused ↦ rw refused ([], sym (append-nil svs))
  | inr accepted ↦ rw accepted (_, refl)
]

add_services-append :
    (host_name : Bytes) (given svs : List Service)
    → (added : List Service) × (add_services host_name given svs ≡ svs ++ added)
unfolding add_services
add_services-append host_name [] svs = ([], sym (append-nil svs))
add_services-append host_name (sv ∷ given) svs =
    let (one, e) = add_service-append host_name sv svs in
    let (more, e') = add_services-append host_name given (add_service host_name sv svs).1 in
    (one ++ more, e' ∙ ap (λ xs. xs ++ more) e ∙ append_assoc svs one more)

snapshots-Grows :
    (host_name : Bytes) (calls : ℕ → List Service) (k : ℕ) (svs : List Service) (n : ℕ)
    → Grows svs (snapshots host_name calls k svs n)
unfolding snapshots
snapshots-Grows host_name calls k svs zero = tt
snapshots-Grows host_name calls k svs (suc n) = (
  add_services-append host_name (calls k) svs,
  snapshots-Grows host_name calls (suc k) (add_services host_name (calls k) svs) n,
)

-- The response to each query, with the registry for it.
unfoldable pub responses_from : LocalIp → List (List Service) → List Query → List Bytes
responses_from local [] qs = []
responses_from local (s ∷ ss) [] = []
responses_from local (s ∷ ss) (q ∷ qs) = message (announced local s q) ∷ responses_from local ss qs

module _ (machine : BbEndianness) (local : LocalIp) (host_name : Bytes)
    (calls : ℕ → List Service) where
  handle_queries_shared-query_sections :
      (qs : List Query) (buffer : Bytes) (k : ℕ) (svs : List Service) (index : ℕ)
      (sent : List Bytes) (rest : Bytes)
      → All (FitsServer local) (snapshots host_name calls k svs (length qs))
      → All FitsQuery qs
      → At buffer index (query_sections qs ++ rest)
      → handle_queries_shared machine local host_name calls buffer (length qs) k svs index sent
        ≡ done (sent ++ responses_from local (snapshots host_name calls k svs (length qs)) qs)
  unfolding handle_queries_shared query_sections snapshots responses_from announced
  handle_queries_shared-query_sections [] buffer k svs i sent rest f fs h = rw append-nil
  handle_queries_shared-query_sections (q ∷ qs) buffer k svs i sent rest (f, more) (fq, fs) h =
      let svs' = add_services host_name (calls k) svs in
      let (j, e, a) =
        parse_query-query_section q buffer i (query_sections qs ++ rest) fq
          (rw (append_assoc (query_section q) (query_sections qs) rest) at h) in
      rw
        (
          e,
          answer_query-reply machine local svs' f q,
          response_message-message machine local (matching q.filter svs')
              (FitsMessage-announced local svs' q f),
        )
        (handle_queries_shared-query_sections qs buffer (suc k) svs' j _ rest more fs a
          ∙ ap done (append_assoc sent (message (announced local svs' q) ∷ []) _))

-- While other threads register services, a server of either byte order answers the broadcast
-- message of a client of either byte order with one response for each query, in order. Each tells
-- of the services that match, all or those whose name is exactly the filter, in the registry as it
-- is when the handler takes the mutex for that query; from one query to the next the registry only
-- grows at its end, also from what it held when the datagram arrived. Queries fit one message, and
-- so do the services of each such registry.
pub handle_datagram_shared-query_message :
    (client server : BbEndianness) (local : LocalIp) (host_name : Bytes) (calls : ℕ → List Service)
    (svs : List Service) (qs : List Query) (junk : Bytes)
    → All (FitsServer local) (snapshots host_name calls 0 svs (length qs))
    → FitsBroadcast qs
    → let registries = snapshots host_name calls 0 svs (length qs) in
      let received = received_bytes (query_message client qs) in
      (handle_datagram_shared server local host_name calls svs (received ++ junk) (length received)
        ≡ done (responses_from local registries qs))
      × Grows svs registries
unfolding handle_datagram_shared after_broadcast_shared
handle_datagram_shared-query_message client server local host_name calls svs qs junk f g =
    let (e, a) = parse_broadcast-message client server qs junk g in
    (
      rw (received_bytes-query_message client qs g, e)
          (handle_queries_shared-query_sections server local host_name calls qs _ 0 svs 10 [] junk f
            g.each_fits a),
      snapshots-Grows host_name calls 0 svs (length qs),
    )
