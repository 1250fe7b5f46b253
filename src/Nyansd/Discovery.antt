-- ===== src/Nyansd/Discovery.antt =====
-- A query from `sendQuery` of one machine, through `clientHandler` of others, and back.
pub mod Links
pub mod Truncated
pub mod Threads
pub mod Escaped
pub mod TooLong
use nyan_sd.Base.{
  ℕ, ◌≤◌, ◌≡◌, refl, sym, ap, ◌∙◌, true, List, [], ◌∷◌, ◌++◌, arith, length, All, append-nil,
  append_assoc, le→ltb, map, map-append, Bytes,
}
use nyan_sd.ByteBauble.{BbEndianness}
use nyan_sd.Nyansd.{Service, Query}
use nyan_sd.Nyansd.LocalIp.{LocalIp}
use nyan_sd.Nyansd.Handler.{messages_sent, received_bytes, handle_datagram}
use nyan_sd.Nyansd.Handler.Announced.{FitsServer, announced, FitsMessage-announced}
use nyan_sd.Nyansd.Handler.Queries.{FitsBroadcast, handle_datagram-query_message}
use nyan_sd.Nyansd.Response.{buffer_size, returned}
use nyan_sd.Nyansd.Response.Message.{message}
use nyan_sd.Nyansd.Response.Datagram.{
  datagram, concat, received, FitsDatagram, services_in, parse_buffers-received,
}
use nyan_sd.Nyansd.SendQuery.{
  query_message, broadcast_address, Receive, Interface, no_escape, address, receive_loop,
  use_interface, use_interfaces, send_query,
}

-- A server that hears the broadcast: its byte order, the address by which the client reaches it,
-- its services, and what its receive buffer holds behind the datagram.
pub record Server : Type 0 where
  pub machine : BbEndianness
  pub local : LocalIp
  pub services : List Service
  pub leftover : Bytes

-- What a server sends on receiving a payload.
unfoldable pub replies : Server → Bytes → List Bytes
replies s payload =
    let received = received_bytes payload in
    messages_sent
      (handle_datagram s.machine s.local s.services (received ++ s.leftover) (length received))

-- The datagrams as the client receives them, each into a buffer of its own, in front of `junk`.
unfoldable pub arrivals : Bytes → List Bytes → List Receive
arrivals junk [] = []
arrivals junk (m ∷ ms) =
    Receive.datagram (record { bytes = m ++ junk; length = length m }) ∷ arrivals junk ms

unfoldable pub all_replies : List Server → Bytes → List Bytes
all_replies [] payload = []
all_replies (s ∷ ss) payload = replies s payload ++ all_replies ss payload

-- The services in the responses: by server, then by query.
unfoldable pub announcements : List Server → List Query → List (List Service)
announcements [] qs = []
announcements (s ∷ ss) qs = map (announced s.local s.services) qs ++ announcements ss qs

-- A server whose services fit, and whose response to any of the queries fits a receive buffer.
pub record CanAnswer (qs : List Query) (s : Server) : Type 0 where
  pub services_fit : FitsServer s.local s.services
  pub replies_fit : All (λ q. length (message (announced s.local s.services q)) ≤ buffer_size) qs

-- One message as a datagram of its own.
pub single : Bytes → List Service → List (List Service) × Bytes
single junk svs = (svs ∷ [], junk)

pub singles : Bytes → List (List Service) → List (List (List Service) × Bytes)
unfolding single
singles junk [] = []
singles junk (svs ∷ svss) = single junk svs ∷ singles junk svss

pub concat-append : (xss yss : List (List Service)) → concat (xss ++ yss) ≡ concat xss ++ concat yss
unfolding concat
concat-append [] yss = refl
concat-append (xs ∷ xss) yss =
    ap (◌++◌ xs) (concat-append xss yss) ∙ sym (append_assoc xs (concat xss) (concat yss))

pub services_in-singles :
    (junk : Bytes) (svss : List (List Service)) → services_in (singles junk svss) ≡ concat svss
unfolding services_in singles concat
services_in-singles junk [] = refl
services_in-singles junk (svs ∷ svss) =
    rw append-nil (ap (◌++◌ svs) (services_in-singles junk svss))

pub receive_loop-arrivals :
    (junk : Bytes) (svss : List (List Service))
    → receive_loop (arrivals junk (map message svss)) ≡ map received (singles junk svss)
unfolding receive_loop arrivals singles datagram
receive_loop-arrivals junk [] = refl
receive_loop-arrivals junk (svs ∷ svss) = rw (append-nil, receive_loop-arrivals junk svss)

pub map-message :
    (s : Server) (qs : List Query)
    → map (λ q. message (announced s.local s.services q)) qs
      ≡ map message (map (announced s.local s.services) qs)
map-message s [] = refl
map-message s (q ∷ qs) = ap (◌∷◌ (message (announced s.local s.services q))) (map-message s qs)

pub all_replies-announcements :
    (client : BbEndianness) (ss : List Server) (qs : List Query)
    → FitsBroadcast qs
    → All (CanAnswer qs) ss
    → all_replies ss (query_message client qs) ≡ map message (announcements ss qs)
unfolding all_replies announcements replies
all_replies-announcements client [] qs g fs = refl
all_replies-announcements client (s ∷ ss) qs g (f, fs) = rw (
  handle_datagram-query_message client s.machine s.local s.services qs s.leftover f.services_fit g,
  all_replies-announcements client ss qs g fs,
  map-message s qs,
  map-append message (map (announced s.local s.services) qs),
)

module _ (junk : Bytes) where
  pub FitsDatagram-single :
      (s : Server) (qs : List Query)
      → FitsServer s.local s.services
      → All (λ q. length (message (announced s.local s.services q)) ≤ buffer_size) qs
      → (more : List (List Service)) → All FitsDatagram (singles junk more)
      → All FitsDatagram (singles junk (map (announced s.local s.services) qs ++ more))
  unfolding singles datagram
  FitsDatagram-single s [] f rs more ms = ms
  FitsDatagram-single s (q ∷ qs) f (r, rs) more ms = (
    record {
      some_message = omega arith;
      each_fits = (FitsMessage-announced s.local s.services q f, tt);
      length_fits = rw append-nil r;
    },
    FitsDatagram-single s qs f rs more ms,
  )

  pub FitsDatagram-announcements :
      (ss : List Server) (qs : List Query)
      → All (CanAnswer qs) ss
      → All FitsDatagram (singles junk (announcements ss qs))
  unfolding announcements
  FitsDatagram-announcements [] qs fs = unfold singles in tt
  FitsDatagram-announcements (s ∷ ss) qs (f, fs) =
      FitsDatagram-single s qs f.services_fit f.replies_fit (announcements ss qs)
        (FitsDatagram-announcements ss qs fs)

-- An interface that works, with address `ip`, on which these datagrams come back.
abbrev pub working : Bytes → List Receive → Interface
working ip receives = record {
  supports_ipv4 = true;
  first_address = address ip true;
  escape = no_escape;
  can_send = true;
  receives = receives;
}

-- On a machine with one working interface `sendQuery` sends one datagram, the broadcast message,
-- to the broadcast address; and when all that comes back are the responses of some servers, of
-- any byte order, to that datagram, it returns true with the services appended that these servers
-- announce for the queries: by server, then by query, then in the order of registration. Queries,
-- services and responses fit their messages and the receive buffers.
pub send_query-announcements :
    (client : BbEndianness) (port : ℕ) (qs : List Query) (ss : List Server) (ip junk : Bytes)
    (out : List Service)
    → FitsBroadcast qs
    → All (CanAnswer qs) ss
    → let payload = query_message client qs in
      send_query client port qs (working ip (arrivals junk (all_replies ss payload)) ∷ []) out ≡ (
        record { to_address = broadcast_address ip; to_port = port; payload = payload } ∷ [],
        returned true (out ++ concat (announcements ss qs)),
      )
unfolding send_query use_interfaces use_interface
send_query-announcements client port qs ss ip junk out g fs = rw (
  le→ltb 255 (length qs) (omega (arith, g.count_fits)),
  le→ltb (length qs) 1 (omega (arith, g.some_query)),
  all_replies-announcements client ss qs g fs,
  receive_loop-arrivals junk (announcements ss qs),
  append-nil (map received (singles junk (announcements ss qs))),
  parse_buffers-received client (singles junk (announcements ss qs)) out
      (FitsDatagram-announcements junk ss qs fs),
  services_in-singles junk (announcements ss qs),
)
