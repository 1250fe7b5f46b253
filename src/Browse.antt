-- ===== src/Browse.antt =====
-- browse/nyansd_browse.cpp: `main`. The argument parser is a library: its answers are given.
pub mod Session
use nyan_sd.Base.{ℕ, Bool, List, [], ◌∷◌, ◌++◌, if◌then◌else◌, text, Bytes}
use nyan_sd.ByteBauble.{BbEndianness}
use nyan_sd.Nyansd.{Service, Query, all}
use nyan_sd.Nyansd.Ipv4.{decimal, ipv4_uint_to_string}
use nyan_sd.Nyansd.Response.{Outcome, returned, thrown, crash, out_of_fuel}
use nyan_sd.Nyansd.SendQuery.{Interface, Sent, send_query}

-- `sarge.parseArguments(...)` and `sarge.exists("help")`.
pub record Arguments : Type 0 where
  pub parsed : Bool
  pub help : Bool

unfoldable pub describe : BbEndianness → Service → Bytes
describe machine sv =
    text "Got service "
    ++ (sv.service
        ++ (text " on host "
            ++ (sv.hostname
                ++ (text ", IPv4 "
                    ++ (ipv4_uint_to_string machine sv.ipv4
                        ++ (text ", IPv6 " ++ (sv.ipv6 ++ (text ", port " ++ decimal sv.port))))))))

unfoldable pub describe_all : BbEndianness → List Service → List Bytes
describe_all machine [] = []
describe_all machine (sv ∷ svs) = describe machine sv ∷ describe_all machine svs

-- The exit code, what was sent, and the lines for the services found.
pub data Browse : Type 0 where
  exit : ℕ → List Sent → List Bytes → Browse
  crashed : Browse

unfoldable pub browse_query : Query
browse_query = record { protocol = all; filter = [] }

print_responses : BbEndianness → List Sent × Outcome → Browse
print_responses machine (sent, returned result responses) =
    exit 0 sent (describe_all machine responses)
print_responses machine (sent, thrown) = crashed
print_responses machine (sent, crash) = crashed
print_responses machine (sent, out_of_fuel) = crashed

unfoldable pub browse_main : BbEndianness → Arguments → List Interface → Browse
unfolding print_responses browse_query
browse_main machine arguments interfaces =
    if arguments.parsed
    then (if arguments.help
        then exit 0 [] []
        else print_responses machine (send_query machine 11310 (browse_query ∷ []) interfaces []))
    else exit 1 [] []
