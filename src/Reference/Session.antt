-- ===== src/Reference/Session.antt =====
-- What the reference client prints for the reference server.
use nyan_sd.Base.{
  ℕ, ◌^◌, ◌<◌, ◌≤◌, ◌≡◌, refl, ap, ◌∙◌, some, inl, inr, [], ◌∷◌, ◌++◌, arith, length, append-nil,
  text, Bytes,
}
use nyan_sd.ByteBauble.{BbEndianness, bb_le, bb_be, le_bytes, store}
use nyan_sd.Nyansd.Ipv4.{ipv4_uint_to_string, dotted, decimal}
use nyan_sd.Nyansd.SendQuery.{query_message}
use nyan_sd.Nyansd.Response.Datagram.{concat}
use nyan_sd.Nyansd.Discovery.{working, arrivals, all_replies, announcements}
use nyan_sd.Client.{query_all, describe, describe_all, filter_duplicates, client_main}
use nyan_sd.Client.Unique.{Distinct, filter_duplicates-append}
use nyan_sd.Client.Session.{client_main-announcements}
use nyan_sd.Server.Registered.{address_42, documentation_ipv6}
use nyan_sd.Reference.{three_services, reference_server, announced-three, CanAnswer-reference}

Distinct-three :
    (server : BbEndianness) (host_name : Bytes) (ipv4 : ℕ)
    → Distinct (three_services server host_name ipv4)
Distinct-three server host_name ipv4 = (
  λ e. elim e [
    | inl p ↦ ground (arith, ap (λ sv. sv.port) p)
    | inr (inl p) ↦ ground (arith, ap (λ sv. sv.port) p)
    | inr (inr p) ↦ p
  ],
  (λ e. elim e [ inl p ↦ ground (arith, ap (λ sv. sv.port) p) | inr p ↦ p ], ((λ e. e), tt)),
)

-- The text that a client shows for 192.168.0.42 as a server registered it.
abbrev pub shown_42 : BbEndianness → BbEndianness → Bytes
shown_42 bb_le bb_le = text "192.168.0.42"
shown_42 bb_be bb_be = text "192.168.0.42"
shown_42 bb_le bb_be = text "42.0.168.192"
shown_42 bb_be bb_le = text "42.0.168.192"

shown_42_lem :
    (client server : BbEndianness)
    → ipv4_uint_to_string client (address_42 server) ≡ shown_42 client server
unfolding ipv4_uint_to_string store le_bytes dotted decimal
shown_42_lem bb_le bb_le = refl
shown_42_lem bb_be bb_be = refl
shown_42_lem bb_le bb_be = refl
shown_42_lem bb_be bb_le = refl

-- A line for a service of the server.
abbrev pub line : Bytes → Bytes → Bytes → Bytes → Bytes → Bytes
line name host_name ipv4 ipv6 port =
    text "Got service "
    ++ (name
        ++ (text " on host "
            ++ (host_name
                ++ (text ", IPv4 "
                    ++ (ipv4
                        ++ (text ", IPv6 "
                            ++ (ipv6 ++ (text ", port " ++ (port ++ text " (TCP)")))))))))

describe_all-three :
    (client server : BbEndianness) (host_name : Bytes) (ipv4 : ℕ)
    → describe_all client (three_services server host_name ipv4)
      ≡ line (text "HelloService") host_name (ipv4_uint_to_string client ipv4) [] (text "11310")
        ∷ line (text "SSLService") host_name (shown_42 client server) documentation_ipv6 (text "22")
        ∷ line
            (text "HTTPService")
            host_name
            (shown_42 client server)
            documentation_ipv6
            (text "80")
        ∷ []
unfolding describe_all describe decimal
describe_all-three client server host_name ipv4 = rw (shown_42_lem client server) refl

-- The lines for HelloService, with the number that the server has found for itself as the client
-- writes it, and for the two services with an address of their own.
pub client_main-reference_server :
    (client server : BbEndianness) (host_name ip junk leftover : Bytes) (ipv4 : ℕ)
    → length host_name ≤ 255
    → ipv4 < 256 ^ 4
    → let s = reference_server server host_name ipv4 leftover in
      client_main client (
        working ip (arrivals junk (all_replies (s ∷ []) (query_message client (query_all ∷ []))))
        ∷ [])
      ≡ some (
          line (text "HelloService") host_name (ipv4_uint_to_string client ipv4) [] (text "11310")
          ∷ line
              (text "SSLService")
              host_name
              (shown_42 client server)
              documentation_ipv6
              (text "22")
          ∷ line
              (text "HTTPService")
              host_name
              (shown_42 client server)
              documentation_ipv6
              (text "80")
          ∷ [])
client_main-reference_server client server host_name ip junk leftover ipv4 short fits =
    client_main-announcements client (reference_server server host_name ipv4 leftover ∷ []) ip junk
      (CanAnswer-reference server host_name ipv4 short fits leftover, tt)
    ∙ ap (λ svs. some (describe_all client (filter_duplicates [] svs))) told
    ∙ ap (λ svs. some (describe_all client svs))
        (filter_duplicates-append [] (three_services server host_name ipv4)
          (Distinct-three server host_name ipv4))
    ∙ ap some (describe_all-three client server host_name ipv4)
  where
    told :
        concat
          (announcements (reference_server server host_name ipv4 leftover ∷ []) (query_all ∷ []))
        ≡ three_services server host_name ipv4
    told =
        unfold concat announcements in
        rw (announced-three server host_name ipv4)
          (append-nil (three_services server host_name ipv4))
