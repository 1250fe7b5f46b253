-- ===== src/Tests/Messages.antt =====
-- Messages of two machines of different byte order.
use nyan_sd.Base.{
  ◌≤◌, ◌++◌, ◌≡◌, refl, true, false, inl, List, [], ◌∷◌, length, arith, map, equal, text, Bytes,
}
use nyan_sd.ByteBauble.{bb_le, bb_be, le_bytes}
use nyan_sd.Nyansd.SendQuery.{
  query_message, broadcast_address, Interface, no_escape, at_opening, address, not_found,
  send_query,
}
use nyan_sd.Nyansd.Response.Refused.{unsigned, parse_buffers-Faulty}
use nyan_sd.Nyansd.Response.{ResponseStruct, returned, thrown, parse_buffers, buffer_size}
use nyan_sd.Nyansd.Response.Section.{section, section_list}
use nyan_sd.Nyansd.Response.Message.{message, message_with}
use nyan_sd.Nyansd.Response.Datagram.{
  concat, datagram, services_in, FitsDatagram, received, parse_buffers-received,
}
use nyan_sd.Nyansd.Response.Total.{Ends, parse_buffers-Ends}
use nyan_sd.Nyansd.Response.Faults.{two_messages, second_signature_ignored}
use nyan_sd.Nyansd.Handler.{done, received_bytes, handle_datagram}
use nyan_sd.Nyansd.Handler.Answers.{matching, localize}
use nyan_sd.Nyansd.Handler.Announced.{announced}
use nyan_sd.Nyansd.Handler.Queries.{handle_datagram-query_message}
use nyan_sd.Nyansd.Discovery.{announcements}
use nyan_sd.Nyansd.Discovery.Links.{
  Link, up, down, interface_of, broadcasts, link_announcements, send_query-links,
}
use nyan_sd.Nyansd.Discovery.Escaped.{opening, send_query-Escapes}
use nyan_sd.Tests.Data.{
  hello, hello_there, web, local, services, queries, alpha, FitsServer-services,
  FitsBroadcast-queries, CanAnswer-alpha, FitsMessage-services,
}

abbrev payload : Bytes
payload = query_message bb_le queries

-- An interface without IPv4.
abbrev six_only : Interface
six_only = record {
  supports_ipv4 = false;
  first_address = not_found;
  escape = no_escape;
  can_send = true;
  receives = [];
}

abbrev links : List Link
links = up (text "192.168.0.7") [] (alpha ∷ []) ∷ down six_only ∷ []

-- The client is told of both services by the first response, and of the second by the other.
send_query_example : send_query bb_le 11310 queries (map (interface_of payload) links) [] ≡ (
  record { to_address = broadcast_address (text "192.168.0.7"); to_port = 11310; payload = payload }
      ∷ [],
  returned true (hello_there ∷ web ∷ web ∷ []),
)
unfolding concat announcements announced matching localize equal broadcasts link_announcements
send_query_example =
    send_query-links bb_le 11310 queries links [] FitsBroadcast-queries
      ((CanAnswer-alpha, tt), (inl refl, tt))

handle_datagram_example :
    let received = received_bytes payload in
    handle_datagram bb_be local services (received ++ text "old") (length received)
    ≡ done (message (hello_there ∷ web ∷ []) ∷ message (web ∷ []) ∷ [])
unfolding announced matching localize equal
handle_datagram_example =
    handle_datagram-query_message bb_le bb_be local services queries (text "old")
      FitsServer-services FitsBroadcast-queries

FitsDatagram-services : FitsDatagram (services ∷ services ∷ [], text "old")
unfolding datagram message message_with section_list section le_bytes
FitsDatagram-services = record {
  some_message = omega arith;
  each_fits = (FitsMessage-services, (FitsMessage-services, tt));
  length_fits = omega arith;
}

parse_buffers_example :
    parse_buffers bb_be (map received ((services ∷ services ∷ [], text "old") ∷ [])) []
    ≡ returned true (hello ∷ web ∷ hello ∷ web ∷ [])
unfolding concat services_in
parse_buffers_example =
    parse_buffers-received bb_be ((services ∷ services ∷ [], text "old") ∷ []) []
      (FitsDatagram-services, tt)

total_example :
    Ends [] (parse_buffers bb_le (record { bytes = text "NYANSD!!"; length = 8 } ∷ []) [])
total_example =
    parse_buffers-Ends bb_le (record { bytes = text "NYANSD!!"; length = 8 } ∷ []) []
      (ground arith, tt)

two_messages-small : length (two_messages services (text "forged") services) ≤ buffer_size
unfolding two_messages message message_with section_list section le_bytes
two_messages-small = omega arith

second_signature_example :
    parse_buffers bb_le
      (record {
        bytes = two_messages services (text "forged") services ++ [];
        length = length (two_messages services (text "forged") services);
      }
        ∷ [])
      []
    ≡ returned true (hello ∷ web ∷ hello ∷ web ∷ [])
second_signature_example =
    second_signature_ignored bb_le services services (text "forged") [] [] FitsMessage-services
      FitsMessage-services refl two_messages-small

-- A datagram with another signature, between two of response messages.
abbrev stray : ResponseStruct
stray = record { bytes = text "NYANSE" ++ text "junk"; length = 10 }

stray_example :
    parse_buffers bb_be
      (map received ((services ∷ services ∷ [], text "old") ∷ [])
        ++ stray ∷ received (services ∷ [], []) ∷ [])
      []
    ≡ returned false (hello ∷ web ∷ hello ∷ web ∷ [])
unfolding services_in concat
stray_example =
    parse_buffers-Faulty bb_be ((services ∷ services ∷ [], text "old") ∷ []) stray (returned false)
      (received (services ∷ [], []) ∷ []) [] (FitsDatagram-services, tt)
      (unsigned (text "NYANSE") (text "junk") refl (omega arith) refl refl (λ e. ground (arith, e)))

-- An interface on which no broadcast is allowed.
abbrev forbidden : Interface
forbidden = record {
  supports_ipv4 = true;
  first_address = address (text "10.0.0.1") true;
  escape = at_opening;
  can_send = true;
  receives = [];
}

escapes_example :
    send_query bb_le 11310 queries
      (map (interface_of payload) links ++ forbidden ∷ six_only ∷ [])
      []
    ≡ (broadcasts 11310 payload links ++ [], thrown)
escapes_example =
    send_query-Escapes bb_le 11310 queries links forbidden (six_only ∷ []) [] []
      FitsBroadcast-queries ((CanAnswer-alpha, tt), (inl refl, tt))
      (opening (text "10.0.0.1") refl refl refl refl)
