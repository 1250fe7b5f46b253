-- ===== src/Nyansd/Handler/Local.antt =====
-- The handler of a server whose network the client is on.
use nyan_sd.Base.{ℕ, ◌<◌, ◌^◌, ◌≡◌, none, List, [], ◌∷◌, ◌++◌, length, map, Bytes}
use nyan_sd.ByteBauble.{BbEndianness}
use nyan_sd.Nyansd.{Service, Query}
use nyan_sd.Nyansd.Ipv4.{ipv4_uint_to_string}
use nyan_sd.Nyansd.LocalIp.{af_inet, Address, before_last, found}
use nyan_sd.Nyansd.LocalIp.Found.{FirstOnNetwork, remote_to_local_ip-FirstOnNetwork}
use nyan_sd.Nyansd.SendQuery.{query_message}
use nyan_sd.Nyansd.Response.Message.{message}
use nyan_sd.Nyansd.Handler.{done, received_bytes, client_handler}
use nyan_sd.Nyansd.Handler.Announced.{FitsServer, announced}
use nyan_sd.Nyansd.Handler.Queries.{FitsBroadcast, handle_datagram-query_message}

-- The sender's address is `net`, a dot, and `host` without a dot, which also holds the port. If of
-- the server's interfaces with an address that begins with `net` and a dot the first has for its
-- first IPv4 address the text of `v`, the handler announces the services that match each query
-- with `v` and no IPv6 text in place of an unset address, whatever its variable held before.
-- Queries and services fit one message.
pub client_handler-FirstOnNetwork :
    (client server : BbEndianness) (net host : Bytes) (v uninit : ℕ)
    (interfaces : List (List Address)) (svs : List Service) (qs : List Query) (junk : Bytes)
    → v < 256 ^ 4
    → before_last b'.' host ≡ none
    → FirstOnNetwork (net ++ b'.' ∷ []) (ipv4_uint_to_string server v) interfaces
    → FitsServer (found v []) svs
    → FitsBroadcast qs
    → let received = received_bytes (query_message client qs) in
      client_handler server interfaces
        (record { family = af_inet; text = net ++ (b'.' ∷ host) })
        uninit
        svs
        (received ++ junk)
        (length received)
      ≡ done (map (λ q. message (announced (found v []) svs q)) qs)
unfolding client_handler
client_handler-FirstOnNetwork client server net host v uninit interfaces svs qs junk fits h on f g =
    rw (remote_to_local_ip-FirstOnNetwork server net host v interfaces uninit [] fits h on)
      (handle_datagram-query_message client server (found v []) svs qs junk f g)
