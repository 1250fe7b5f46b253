-- ===== src/Tests/Datagrams.antt =====
-- The handler on datagrams from elsewhere, and queries with long filters.
use nyan_sd.Base.{ℕ, zero, suc, ◌≡◌, ◌⊎◌, refl, List, [], ◌∷◌, ◌++◌, All, length, arith, text}
use nyan_sd.ByteBauble.{bb_le, bb_be, le_bytes}
use nyan_sd.Nyansd.{Service}
use nyan_sd.Nyansd.SendQuery.{query_message}
use nyan_sd.Nyansd.Handler.{messages_sent, received_bytes, done, handle_datagram}
use nyan_sd.Nyansd.Handler.Answers.{localize}
use nyan_sd.Nyansd.Handler.Announced.{FitsServer}
use nyan_sd.Nyansd.Handler.Arbitrary.{IsBroadcast, Responses, handle_datagram-Responses}
use nyan_sd.Nyansd.Handler.Shared.{add_services, handle_datagram_shared}
use nyan_sd.Nyansd.Handler.Shared.Snapshots.{
  snapshots, Grows, responses_from, handle_datagram_shared-query_message,
}
use nyan_sd.Nyansd.Registry.{add_service}
use nyan_sd.Nyansd.Response.Section.{section, section_list}
use nyan_sd.Tests.Data.{
  hello, FitsSection-hello_there, web, local, services, queries, FitsServer-services,
  FitsBroadcast-queries, strange, strange_bytes,
}

responses_example :
    let sent = messages_sent (handle_datagram bb_be local services strange 14) in
    (sent ≡ []) ⊎ ((count : ℕ) × IsBroadcast strange 14 count × Responses count sent)
responses_example = handle_datagram-Responses bb_be local services strange 14 strange_bytes

-- `web` is registered while the handler is between the two queries.
abbrev late : ℕ → List Service
late zero = []
late (suc k) = web ∷ []

snapshots_run : snapshots (text "alpha") late 0 (hello ∷ []) 2 ≡ (hello ∷ []) ∷ services ∷ []
unfolding snapshots add_services add_service
snapshots_run = refl

FitsServer-hello : FitsServer local (hello ∷ [])
unfolding section_list section localize le_bytes
FitsServer-hello = record {
  ready = ((FitsSection-hello_there, omega arith), tt);
  count_fits = omega arith;
  length_fits = omega arith;
}

snapshots_fit : All (FitsServer local) (snapshots (text "alpha") late 0 (hello ∷ []) 2)
snapshots_fit = rw snapshots_run (FitsServer-hello, (FitsServer-services, tt))

shared_example :
    let registries = snapshots (text "alpha") late 0 (hello ∷ []) 2 in
    let received = received_bytes (query_message bb_le queries) in
    (handle_datagram_shared bb_be local
        (text "alpha")
        late
        (hello ∷ [])
        (received ++ text "old")
        (length received)
      ≡ done (responses_from local registries queries))
    × Grows (hello ∷ []) registries
shared_example =
    handle_datagram_shared-query_message bb_le bb_be local (text "alpha") late (hello ∷ []) queries
      (text "old") snapshots_fit FitsBroadcast-queries
