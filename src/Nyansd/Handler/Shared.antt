-- ===== src/Nyansd/Handler/Shared.antt =====
-- src/nyansd.cpp: `clientHandler` while other threads call `addService`. The mutex makes the loop
-- over the services for one query, and the `push_back` of one service, steps that do not overlap.
pub mod Snapshots
use nyan_sd.Base.{ℕ, zero, suc, List, [], ◌∷◌, Bytes}
use nyan_sd.ByteBauble.{BbEndianness}
use nyan_sd.Nyansd.{Service}
use nyan_sd.Nyansd.LocalIp.{LocalIp}
use nyan_sd.Nyansd.Wire.{Scan, ok, refused, fault}
use nyan_sd.Nyansd.Registry.{add_service}
use nyan_sd.Nyansd.Handler.{Handled, done, crashed, after_query, parse_query, parse_broadcast}

-- Calls of `addService` one after another.
unfoldable pub add_services : Bytes → List Service → List Service → List Service
add_services host_name [] services = services
add_services host_name (sv ∷ svs) services =
    add_services host_name svs (add_service host_name sv services).1

-- The loop over the queries: before its round `k` the other threads have added `calls k`.
unfoldable pub handle_queries_shared :
    BbEndianness
    → LocalIp
    → Bytes
    → (ℕ → List Service)
    → Bytes
    → ℕ
    → ℕ
    → List Service
    → ℕ
    → List Bytes
    → Handled
unfolding after_query
handle_queries_shared machine local host_name calls buffer zero k services index sent = done sent
handle_queries_shared machine local host_name calls buffer (suc rounds) k services index sent =
    let services' = add_services host_name (calls k) services in
    after_query machine local services' index sent
      (λ i sent'.
        handle_queries_shared machine local host_name calls buffer rounds (suc k) services' i sent')
      (parse_query buffer index)

after_broadcast_shared :
    BbEndianness
    → LocalIp
    → Bytes
    → (ℕ → List Service)
    → List Service
    → Bytes
    → Scan (ℕ × ℕ)
    → Handled
after_broadcast_shared machine local host_name calls services buffer (ok (rnum, i)) =
    handle_queries_shared machine local host_name calls buffer rnum 0 services i []
after_broadcast_shared machine local host_name calls services buffer refused = done []
after_broadcast_shared machine local host_name calls services buffer fault = crashed []

-- A datagram that is received when the registry holds `services`.
unfoldable pub handle_datagram_shared :
    BbEndianness → LocalIp → Bytes → (ℕ → List Service) → List Service → Bytes → ℕ → Handled
unfolding after_broadcast_shared
handle_datagram_shared machine local host_name calls services buffer n =
    after_broadcast_shared machine local host_name calls services buffer
      (parse_broadcast machine buffer n)
