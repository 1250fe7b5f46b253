-- ===== src/Reference.antt =====
-- client/nyansd_client.cpp and server/nyansd_server.cpp together: the reference client on a network
-- with the reference server.
pub mod Session
pub mod Network
use nyan_sd.Base.{
  ℕ, ◌+◌, ◌^◌, ◌<◌, ◌≤◌, ◌≡◌, refl, sym, ap, ◌∙◌, some, inl, inr, List, [], ◌∷◌, ◌++◌, arith,
  length, length-append, append-nil, map, All, text, Bytes, ◌==◌, if◌then◌else◌,
}
use nyan_sd.ByteBauble.{BbEndianness, bb_le, bb_be, le_bytes, store}
use nyan_sd.ByteBauble.Order.{length-le_bytes}
use nyan_sd.Nyansd.{Service, FitsSection, protocol_code}
use nyan_sd.Nyansd.Ipv4.{ipv4_uint_to_string, dotted, decimal}
use nyan_sd.Nyansd.LocalIp.{LocalIp, found}
use nyan_sd.Nyansd.SendQuery.{query_message}
use nyan_sd.Nyansd.Response.Section.{section, section_list}
use nyan_sd.Nyansd.Response.Message.{message, FitsMessage, length-message}
use nyan_sd.Nyansd.Response.Datagram.{concat}
use nyan_sd.Nyansd.Handler.Answers.{localize, Ready, matching}
use nyan_sd.Nyansd.Handler.Announced.{FitsServer, announced}
use nyan_sd.Nyansd.Discovery.{Server, CanAnswer, working, arrivals, all_replies, announcements}
use nyan_sd.Client.{query_all, describe, describe_all, filter_duplicates, client_main}
use nyan_sd.Client.Unique.{Distinct, Elem, filter_duplicates-append}
use nyan_sd.Client.Session.{client_main-announcements}
use nyan_sd.Server.{server_main}
use nyan_sd.Server.Registered.{address_42, tcp_service, documentation_ipv6, server_main_lem}

-- What the reference server registers and, where `ipv4` is its address, announces.
abbrev pub three_services : BbEndianness → Bytes → ℕ → List Service
three_services server host_name ipv4 =
    tcp_service host_name ipv4 [] 11310 (text "HelloService")
    ∷ tcp_service host_name (address_42 server) documentation_ipv6 22 (text "SSLService")
    ∷ tcp_service host_name (address_42 server) documentation_ipv6 80 (text "HTTPService")
    ∷ []

-- The reference server as one of the servers of a network.
abbrev pub reference_server : BbEndianness → Bytes → ℕ → Bytes → Server
reference_server server host_name ipv4 leftover = record {
  machine = server;
  local = found ipv4 [];
  services = three_services server host_name 0;
  leftover = leftover;
}

section-room :
    (sv : Service)
    → length (section sv) ≡ 13 + length sv.ipv6 + length sv.hostname + length sv.service
unfolding section le_bytes
section-room sv = omega (
  arith,
  length-append sv.ipv6 (
      le_bytes 2 (length sv.hostname)
      ++ (sv.hostname
          ++ (le_bytes 2 sv.port
              ++ (protocol_code sv.protocol ∷ (le_bytes 2 (length sv.service) ++ sv.service))))),
  length-append sv.hostname (
      le_bytes 2 sv.port
      ++ (protocol_code sv.protocol ∷ (le_bytes 2 (length sv.service) ++ sv.service))),
)

pub announced-three :
    (server : BbEndianness) (host_name : Bytes) (ipv4 : ℕ)
    → announced (found ipv4 []) (three_services server host_name 0) query_all
      ≡ three_services server host_name ipv4
unfolding announced matching localize
announced-three bb_le host_name ipv4 = refl
announced-three bb_be host_name ipv4 = refl

localize-three :
    (server : BbEndianness) (host_name : Bytes) (ipv4 : ℕ)
    → map (localize (found ipv4 [])) (three_services server host_name 0)
      ≡ three_services server host_name ipv4
unfolding localize
localize-three bb_le host_name ipv4 = refl
localize-three bb_be host_name ipv4 = refl

module _ (server : BbEndianness) (host_name : Bytes) (ipv4 : ℕ) (short : length host_name ≤ 255)
    (fits : ipv4 < 256 ^ 4) where
  three_services-room : length (section_list (three_services server host_name ipv4)) ≤ 1000
  unfolding section_list
  three_services-room =
      let a : Service = tcp_service host_name ipv4 [] 11310 (text "HelloService") in
      let b : Service =
        tcp_service host_name (address_42 server) documentation_ipv6 22 (text "SSLService") in
      let c : Service =
        tcp_service host_name (address_42 server) documentation_ipv6 80 (text "HTTPService") in
      omega (
        arith,
        length-append (section a) (section b ++ (section c ++ [])),
        length-append (section b) (section c ++ []),
        length-append (section c) [],
        section-room a,
        section-room b,
        section-room c,
      )

  address_42-fits : (m : BbEndianness) → address_42 m < 256 ^ 4
  address_42-fits bb_le = omega arith
  address_42-fits bb_be = omega arith

  FitsSection-hello_service :
      FitsSection (tcp_service host_name ipv4 [] 11310 (text "HelloService"))
  FitsSection-hello_service = record {
    ipv4_fits = fits;
    ipv6_fits = omega arith;
    port_fits = omega arith;
    hostname_fits = omega arith;
    service_fits = omega arith;
  }

  FitsSection-tcp_service :
      (m : BbEndianness) (port : ℕ) (name : Bytes)
      → port < 256 ^ 2
      → length name < 256 ^ 2
      → FitsSection (tcp_service host_name (address_42 m) documentation_ipv6 port name)
  FitsSection-tcp_service m port name p n = record {
    ipv4_fits = address_42-fits m;
    ipv6_fits = omega arith;
    port_fits = p;
    hostname_fits = omega arith;
    service_fits = n;
  }

  Ready-three : (m : BbEndianness) → All (Ready (found ipv4 [])) (three_services m host_name 0)
  unfolding localize
  Ready-three bb_le = (
    (FitsSection-hello_service, omega arith),
    (
      (
        FitsSection-tcp_service bb_le 22 (text "SSLService") (omega arith) (omega arith),
        omega arith,
      ),
      (
        (
          FitsSection-tcp_service bb_le 80 (text "HTTPService") (omega arith) (omega arith),
          omega arith,
        ),
        tt,
      ),
    ),
  )
  Ready-three bb_be = (
    (FitsSection-hello_service, omega arith),
    (
      (
        FitsSection-tcp_service bb_be 22 (text "SSLService") (omega arith) (omega arith),
        omega arith,
      ),
      (
        (
          FitsSection-tcp_service bb_be 80 (text "HTTPService") (omega arith) (omega arith),
          omega arith,
        ),
        tt,
      ),
    ),
  )

  pub CanAnswer-reference :
      (leftover : Bytes)
      → CanAnswer (query_all ∷ []) (reference_server server host_name ipv4 leftover)
  CanAnswer-reference leftover = record {
    services_fit = record {
      ready = Ready-three server;
      count_fits = omega arith;
      length_fits = rw (localize-three server host_name ipv4) (omega (arith, three_services-room));
    };
    replies_fit = (
      rw (announced-three server host_name ipv4) (
          omega
            (arith, length-message (three_services server host_name ipv4), three_services-room)),
      tt,
    );
  }
