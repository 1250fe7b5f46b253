-- ===== src/Tests/Sessions.antt =====
-- Runs of the client and the browser with one server on the network.
use nyan_sd.Base.{refl, inl, inr, ◌≡◌, List, map, some, [], ◌∷◌, arith, text, Bytes}
use nyan_sd.ByteBauble.{bb_le, bb_be, load, of_le, le_bytes}
use nyan_sd.Nyansd.Ipv4.{dotted, decimal}
use nyan_sd.Nyansd.SendQuery.{query_message}
use nyan_sd.Nyansd.LocalIp.Origin.{IsWithout}
use nyan_sd.Nyansd.Handler.Thread.{silent}
use nyan_sd.Nyansd.Handler.Thread.Answered.{client_at, other}
use nyan_sd.Nyansd.Discovery.Threads.{Peer, heard_from}
use nyan_sd.Nyansd.Response.Datagram.{concat}
use nyan_sd.Nyansd.Response.Section.{section, section_list}
use nyan_sd.Nyansd.Response.Message.{message, message_with}
use nyan_sd.Nyansd.Handler.Answers.{localize, matching}
use nyan_sd.Nyansd.Handler.Announced.{announced}
use nyan_sd.Nyansd.Discovery.{CanAnswer, working, arrivals, announcements}
use nyan_sd.Nyansd.Discovery.Links.{Link, up, interface_of, link_announcements}
use nyan_sd.Client.{query_all, client_main}
use nyan_sd.Client.Order.{SameServices, client_main-Perm}
use mathlib.Core.List.{Perm}
use nyan_sd.Server.Registered.{documentation_ipv6, server_main_lem}
use nyan_sd.Reference.{three_services}
use nyan_sd.Reference.Session.{line}
use nyan_sd.Reference.Network.{IsReference, client_main-server_main}
use nyan_sd.Tests.Data.{interfaces, alpha, FitsServer-services}

CanAnswer-client : CanAnswer (query_all ∷ []) alpha
unfolding message message_with section_list section localize le_bytes matching announced
CanAnswer-client = record { services_fit = FitsServer-services; replies_fit = (omega arith, tt) }

-- The server is heard on two interfaces.
abbrev both : List Link
both = up (text "192.168.0.7") [] (alpha ∷ []) ∷ up (text "10.0.0.7") [] (alpha ∷ []) ∷ []

abbrev one : List Link
one = up (text "192.168.0.7") [] (alpha ∷ []) ∷ []

told_twice :
    SameServices
      (concat (link_announcements both (query_all ∷ [])))
      (concat (link_announcements one (query_all ∷ [])))
unfolding concat announcements announced matching localize link_announcements
told_twice sv = (λ e. ground (arith, e), λ e. ground (arith, e))

order_example :
    let payload = query_message bb_le (query_all ∷ []) in
    (lines : List Bytes) × (lines' : List Bytes) × (client_main bb_le
        (map (interface_of payload) both)
      ≡ some lines)
    × (client_main bb_le (map (interface_of payload) one) ≡ some lines')
    × Perm lines lines'
order_example =
    client_main-Perm bb_le both one ((CanAnswer-client, tt), ((CanAnswer-client, tt), tt))
      ((CanAnswer-client, tt), tt) told_twice

-- The reference server on a big endian machine with the address 192.168.0.5.
abbrev reference : Peer
reference = record {
  machine = bb_be;
  interfaces = interfaces;
  services = three_services bb_be (text "alpha") 0;
  address = 0xC0A80005;
  before = other silent ∷ [];
  after = [];
  uninit = 99;
  junk = text "old";
}

IsReference-reference :
    IsReference
      (text "192.168.0")
      (text "7:11310")
      (text "alpha")
      (192 ∷ 168 ∷ 0 ∷ 5 ∷ [])
      reference
unfolding dotted decimal load of_le
IsReference-reference = record {
  registered = server_main_lem bb_be (text "alpha");
  address = refl;
  on_network = inr (
    (λ (rest, e). ground (arith, e), tt),
    inl (inr (inl (text "5", refl)), inr (refl, inl (refl, refl))),
  );
  before_ordinary = (tt, tt);
  after_ordinary = tt;
  before_else = (tt, tt);
  after_else = tt;
}

host_has_no_dot : IsWithout b'.' (text "7:11310")
host_has_no_dot = omega arith

reference_example :
    let payload = query_message bb_le (query_all ∷ []) in
    let client = client_at (text "192.168.0") (text "7:11310") in
    let back = arrivals (text "junk") (heard_from client payload (reference ∷ [])) in
    client_main bb_le (working (text "192.168.0.7") back ∷ [])
    ≡ some (
        line (text "HelloService") (text "alpha") (text "5.0.168.192") [] (text "11310")
        ∷ line
            (text "SSLService")
            (text "alpha")
            (text "42.0.168.192")
            documentation_ipv6
            (text "22")
        ∷ line
            (text "HTTPService")
            (text "alpha")
            (text "42.0.168.192")
            documentation_ipv6
            (text "80")
        ∷ [])
unfolding dotted decimal
reference_example =
    client_main-server_main 192 168 0 5
      (omega arith, (omega arith, (omega arith, (omega arith, tt)))) bb_le (text "192.168.0")
      (text "7:11310") (text "alpha") (text "192.168.0.7") (text "junk") reference (omega arith)
      host_has_no_dot IsReference-reference
