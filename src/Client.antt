-- ===== src/Client.antt =====
-- client/nyansd_client.cpp: the reference client queries for all services, drops the duplicates
-- and prints the rest.
pub mod Unique
pub mod Session
pub mod Order
use nyan_sd.Base.{
  ℕ, ◌≡◌, Option, none, some, Bool, true, false, ◌&&◌, ◌||◌, List, [], ◌∷◌, ◌++◌, ◌==◌,
  if◌then◌else◌, equal, text, length, Bytes,
}
use nyan_sd.ByteBauble.{BbEndianness}
use nyan_sd.Nyansd.{Protocol, all, tcp, udp, protocol_code, Service, Query}
use nyan_sd.Nyansd.Ipv4.{decimal, ipv4_uint_to_string}
use nyan_sd.Nyansd.Response.{Outcome, returned, thrown, crash, out_of_fuel}
use nyan_sd.Nyansd.SendQuery.{Interface, send_query}

-- The six comparisons.
unfoldable pub same_service : Service → Service → Bool
same_service a b =
    a.ipv4 == b.ipv4
    && (equal a.ipv6 b.ipv6
        && (equal a.hostname b.hostname
            && (a.port == b.port
                && (equal a.service b.service
                    && protocol_code a.protocol == protocol_code b.protocol))))

-- `isDuplicate`
unfoldable pub is_duplicate : List Service → Service → Bool
is_duplicate [] rm = false
is_duplicate (sv ∷ uniques) rm = same_service sv rm || is_duplicate uniques rm

-- The loop of `main` over the responses.
unfoldable pub filter_duplicates : List Service → List Service → List Service
filter_duplicates uniques [] = uniques
filter_duplicates uniques (sv ∷ responses) =
    filter_duplicates (if is_duplicate uniques sv then uniques else uniques ++ sv ∷ []) responses

protocol_note : Protocol → Bytes
protocol_note tcp = text " (TCP)"
protocol_note udp = text " (UDP)"
protocol_note all = text " (ALL)"

-- The line that is printed for a service.
unfoldable pub describe : BbEndianness → Service → Bytes
unfolding protocol_note
describe machine sv =
    text "Got service "
    ++ (sv.service
        ++ (text " on host "
            ++ (sv.hostname
                ++ (text ", IPv4 "
                    ++ (ipv4_uint_to_string machine sv.ipv4
                        ++ (text ", IPv6 "
                            ++ (sv.ipv6
                                ++ (text ", port "
                                    ++ (decimal sv.port ++ protocol_note sv.protocol)))))))))

unfoldable pub describe_all : BbEndianness → List Service → List Bytes
describe_all machine [] = []
describe_all machine (sv ∷ svs) = describe machine sv ∷ describe_all machine svs

abbrev pub query_all : Query
query_all = record { protocol = all; filter = [] }

-- The lines for the services after a query. The responses are used whether `sendQuery` returned
-- true or false; an exception and a read outside a buffer have no lines.
unfoldable pub print_responses : BbEndianness → Outcome → Option (List Bytes)
print_responses machine (returned result responses) =
    some (describe_all machine (filter_duplicates [] responses))
print_responses machine thrown = none
print_responses machine crash = none
print_responses machine out_of_fuel = none

-- `main`
unfoldable pub client_main : BbEndianness → List Interface → Option (List Bytes)
unfolding print_responses
client_main machine interfaces =
    print_responses machine (send_query machine 11310 (query_all ∷ []) interfaces []).1
