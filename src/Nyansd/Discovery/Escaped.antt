-- ===== src/Nyansd/Discovery/Escaped.antt =====
-- An exception that leaves `sendQuery`.
use nyan_sd.Base.{
  ℕ, ◌≡◌, refl, sym, ap, true, List, [], ◌∷◌, ◌++◌, arith, length, All, le→ltb, map, Bytes,
}
use nyan_sd.ByteBauble.{BbEndianness}
use nyan_sd.Nyansd.{Service, Query}
use nyan_sd.Nyansd.Handler.Queries.{FitsBroadcast}
use nyan_sd.Nyansd.Response.{thrown}
use nyan_sd.Nyansd.SendQuery.{
  query_message, broadcast_address, Interface, at_opening, at_select, address, Sent, use_interface,
  use_interfaces, send_query,
}
use nyan_sd.Nyansd.Discovery.Links.{
  Link, up, down, Works, interface_of, broadcasts, use_interface-up, use_interface-down,
}

-- On an interface with an IPv4 address the calls in front of `sendTo` throw, and nothing is sent;
-- or the datagram is sent, and `select` throws.
pub data Escapes (port : ℕ) (payload : Bytes) (ifc : Interface) (sent : List Sent) : Type 0 where
  opening :
      (ip : Bytes)
      → ifc.supports_ipv4 ≡ true
      → ifc.first_address ≡ address ip true
      → ifc.escape ≡ at_opening
      → sent ≡ []
      → Escapes port payload ifc sent
  selecting :
      (ip : Bytes)
      → ifc.supports_ipv4 ≡ true
      → ifc.first_address ≡ address ip true
      → ifc.escape ≡ at_select
      → ifc.can_send ≡ true
      → sent ≡ record { to_address = broadcast_address ip; to_port = port; payload = payload } ∷ []
      → Escapes port payload ifc sent

use_interface-Escapes :
    (port : ℕ) (payload : Bytes) (ifc : Interface) (sent : List Sent)
    → Escapes port payload ifc sent
    → let t = use_interface port payload ifc in (t.sent ≡ sent) × (t.escaped ≡ true)
unfolding use_interface
use_interface-Escapes port payload ifc sent (opening ip six a e s) = rw (six, a, e) (sym s, refl)
use_interface-Escapes port payload ifc sent (selecting ip six a e c s) =
    rw (six, a, e, c) (sym s, refl)

use_interfaces-Escapes :
    (client : BbEndianness) (port : ℕ) (qs : List Query) (links : List Link) (ifc : Interface)
    (later : List Interface) (sent : List Sent)
    → FitsBroadcast qs
    → All (Works qs) links
    → Escapes port (query_message client qs) ifc sent
    → let payload = query_message client qs in
      let t = use_interfaces port payload (map (interface_of payload) links ++ ifc ∷ later) in
      (t.sent ≡ broadcasts port payload links ++ sent) × (t.escaped ≡ true)
unfolding use_interfaces broadcasts
use_interfaces-Escapes client port qs [] ifc later sent g h x =
    let (s, e) = use_interface-Escapes port (query_message client qs) ifc sent x in rw e (s, refl)
use_interfaces-Escapes client port qs (up ip junk ss ∷ links) ifc later sent g (h, hs) x =
    let (s, e) = use_interfaces-Escapes client port qs links ifc later sent g hs x in
    let first : Sent = record {
      to_address = broadcast_address ip;
      to_port = port;
      payload = query_message client qs;
    } in
    rw (use_interface-up client port qs ip junk ss g h) (ap (◌∷◌ first) s, e)
use_interfaces-Escapes client port qs (down i ∷ links) ifc later sent g (h, hs) x =
    rw (use_interface-down port (query_message client qs) i h)
      (use_interfaces-Escapes client port qs links ifc later sent g hs x)

-- One interface can spoil the query on all. When behind interfaces that work, or fail in a way that
-- is caught, the calls that open the socket for another one throw, or `select` throws on it, then
-- the exception leaves `sendQuery`: the datagrams have been sent on the interfaces before, none is
-- sent on those behind, and no response is given to the caller. Queries, services and responses
-- fit.
pub send_query-Escapes :
    (client : BbEndianness) (port : ℕ) (qs : List Query) (links : List Link) (ifc : Interface)
    (later : List Interface) (sent : List Sent) (out : List Service)
    → FitsBroadcast qs
    → All (Works qs) links
    → Escapes port (query_message client qs) ifc sent
    → let payload = query_message client qs in
      send_query client port qs (map (interface_of payload) links ++ ifc ∷ later) out
      ≡ (broadcasts port payload links ++ sent, thrown)
unfolding send_query
send_query-Escapes client port qs links ifc later sent out g h x =
    let (s, e) = use_interfaces-Escapes client port qs links ifc later sent g h x in
    rw
      (
        le→ltb 255 (length qs) (omega (arith, g.count_fits)),
        le→ltb (length qs) 1 (omega (arith, g.some_query)),
        e,
      )
      (ap (λ xs. (xs, thrown)) s)
