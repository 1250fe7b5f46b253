-- ===== src/Nyansd/Discovery/Links.antt =====
-- A query on a machine with several interfaces, of which some do not work.
use nyan_sd.Base.{
  ℕ, ◌≡◌, ◌≢◌, refl, sym, ap, ◌∙◌, true, false, ◌⊎◌, List, [], ◌∷◌, ◌++◌, arith, length, All,
  All-append, append_assoc, le→ltb, map, map-append, Bytes,
}
use nyan_sd.ByteBauble.{BbEndianness}
use nyan_sd.Nyansd.{Service, Query}
use nyan_sd.Nyansd.Handler.Queries.{FitsBroadcast}
use nyan_sd.Nyansd.Response.{returned}
use nyan_sd.Nyansd.Response.Datagram.{
  concat, received, FitsDatagram, services_in, parse_buffers-received,
}
use nyan_sd.Nyansd.SendQuery.{
  query_message, broadcast_address, Interface, address, not_found, exception, at_opening, Sent,
  idle, use_interface, use_interfaces, send_query,
}
use nyan_sd.Nyansd.Discovery.{
  Server, arrivals, all_replies, announcements, CanAnswer, working, singles, concat-append,
  services_in-singles, receive_loop-arrivals, all_replies-announcements, FitsDatagram-announcements,
}

-- An interface with its address and the servers behind it, what its receive buffers hold behind
-- each datagram; or one that does not work.
pub data Link : Type 0 where
  up : Bytes → Bytes → List Server → Link
  down : Interface → Link

-- One of the reasons for which `sendQuery` goes on with the next interface.
abbrev pub IsDown : Interface → Type 0
IsDown ifc =
    (ifc.supports_ipv4 ≡ false)
    ⊎ ((ifc.escape ≢ at_opening) × (ifc.can_send ≡ false))
    ⊎ (ifc.first_address ≡ not_found)
    ⊎ (ifc.first_address ≡ exception)
    ⊎ ((ip : Bytes) × (ifc.first_address ≡ address ip false))

abbrev pub Works : List Query → Link → Type 0
Works qs (up ip junk ss) = All (CanAnswer qs) ss
Works qs (down ifc) = IsDown ifc

-- What comes back on a link after the payload has been sent.
abbrev pub interface_of : Bytes → Link → Interface
interface_of payload (up ip junk ss) = working ip (arrivals junk (all_replies ss payload))
interface_of payload (down ifc) = ifc

-- One datagram for each link that works.
unfoldable pub broadcasts : ℕ → Bytes → List Link → List Sent
broadcasts port payload [] = []
broadcasts port payload (up ip junk ss ∷ links) =
    record { to_address = broadcast_address ip; to_port = port; payload = payload }
    ∷ broadcasts port payload links
broadcasts port payload (down ifc ∷ links) = broadcasts port payload links

-- What the servers announce: by link, then by server, then by query.
unfoldable pub link_announcements : List Link → List Query → List (List Service)
link_announcements [] qs = []
link_announcements (up ip junk ss ∷ links) qs = announcements ss qs ++ link_announcements links qs
link_announcements (down ifc ∷ links) qs = link_announcements links qs

link_datagrams : List Link → List Query → List (List (List Service) × Bytes)
link_datagrams [] qs = []
link_datagrams (up ip junk ss ∷ links) qs =
    singles junk (announcements ss qs) ++ link_datagrams links qs
link_datagrams (down ifc ∷ links) qs = link_datagrams links qs

pub use_interface-down :
    (port : ℕ) (payload : Bytes) (ifc : Interface)
    → IsDown ifc
    → use_interface port payload ifc ≡ idle
unfolding use_interface
use_interface-down port payload ifc h = ground arith

pub use_interface-up :
    (client : BbEndianness) (port : ℕ) (qs : List Query) (ip junk : Bytes) (ss : List Server)
    → FitsBroadcast qs
    → All (CanAnswer qs) ss
    → let payload = query_message client qs in
      use_interface port payload (interface_of payload (up ip junk ss)) ≡ record {
        sent = record { to_address = broadcast_address ip; to_port = port; payload = payload } ∷ [];
        buffers = map received (singles junk (announcements ss qs));
        escaped = false;
      }
unfolding use_interface
use_interface-up client port qs ip junk ss g fs =
    rw (
      all_replies-announcements client ss qs g fs,
      receive_loop-arrivals junk (announcements ss qs),
    )

use_interfaces-links :
    (client : BbEndianness) (port : ℕ) (qs : List Query) (links : List Link)
    → FitsBroadcast qs
    → All (Works qs) links
    → let payload = query_message client qs in
      use_interfaces port payload (map (interface_of payload) links) ≡ record {
        sent = broadcasts port payload links;
        buffers = map received (link_datagrams links qs);
        escaped = false;
      }
unfolding use_interfaces broadcasts link_datagrams
use_interfaces-links client port qs [] g h = refl
use_interfaces-links client port qs (up ip junk ss ∷ links) g (h, hs) = rw (
  use_interface-up client port qs ip junk ss g h,
  use_interfaces-links client port qs links g hs,
  map-append received (singles junk (announcements ss qs)) (link_datagrams links qs),
)
use_interfaces-links client port qs (down ifc ∷ links) g (h, hs) = rw (
  use_interface-down port (query_message client qs) ifc h,
  use_interfaces-links client port qs links g hs,
)

services_in-append :
    (xs ys : List (List (List Service) × Bytes))
    → services_in (xs ++ ys) ≡ services_in xs ++ services_in ys
unfolding services_in
services_in-append [] ys = refl
services_in-append ((svss, junk) ∷ xs) ys =
    ap (◌++◌ (concat svss)) (services_in-append xs ys)
    ∙ sym (append_assoc (concat svss) (services_in xs) (services_in ys))

services_in-link_datagrams :
    (links : List Link) (qs : List Query)
    → services_in (link_datagrams links qs) ≡ concat (link_announcements links qs)
unfolding link_datagrams link_announcements services_in concat
services_in-link_datagrams [] qs = refl
services_in-link_datagrams (up ip junk ss ∷ links) qs = rw (
  services_in-append (singles junk (announcements ss qs)) (link_datagrams links qs),
  services_in-singles junk (announcements ss qs),
  services_in-link_datagrams links qs,
  concat-append (announcements ss qs) (link_announcements links qs),
)
services_in-link_datagrams (down ifc ∷ links) qs = services_in-link_datagrams links qs

FitsDatagram-link_datagrams :
    (links : List Link) (qs : List Query)
    → All (Works qs) links
    → All FitsDatagram (link_datagrams links qs)
unfolding link_datagrams
FitsDatagram-link_datagrams [] qs h = tt
FitsDatagram-link_datagrams (up ip junk ss ∷ links) qs (h, hs) =
    All-append FitsDatagram (singles junk (announcements ss qs)) (link_datagrams links qs)
      (FitsDatagram-announcements junk ss qs h) (FitsDatagram-link_datagrams links qs hs)
FitsDatagram-link_datagrams (down ifc ∷ links) qs (h, hs) = FitsDatagram-link_datagrams links qs hs

-- Over any interfaces `sendQuery` sends the broadcast message once on each that works, and goes on
-- after each that does not: one without IPv4, with no IPv4 address or an exception for it, or on
-- which `sendTo` throws. When what comes back on an interface are the responses of the servers
-- behind it, it returns true with what they announce appended: by interface, server, query and
-- registration. Queries, services and responses fit their messages and the receive buffers.
pub send_query-links :
    (client : BbEndianness) (port : ℕ) (qs : List Query) (links : List Link) (out : List Service)
    → FitsBroadcast qs
    → All (Works qs) links
    → let payload = query_message client qs in
      send_query client port qs (map (interface_of payload) links) out
      ≡ (broadcasts port payload links, returned true (out ++ concat (link_announcements links qs)))
unfolding send_query
send_query-links client port qs links out g h = rw (
  le→ltb 255 (length qs) (omega (arith, g.count_fits)),
  le→ltb (length qs) 1 (omega (arith, g.some_query)),
  use_interfaces-links client port qs links g h,
  parse_buffers-received client (link_datagrams links qs) out
      (FitsDatagram-link_datagrams links qs h),
  services_in-link_datagrams links qs,
)
