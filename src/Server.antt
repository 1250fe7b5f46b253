-- ===== src/Server.antt =====
-- server/nyansd_server.cpp: the services that the reference server registers.
pub mod Registered
use nyan_sd.Base.{ℕ, Option, none, some, List, [], ◌∷◌, text, Bytes}
use nyan_sd.ByteBauble.{BbEndianness}
use nyan_sd.Nyansd.{tcp, Service, blank_service}
use nyan_sd.Nyansd.Ipv4.{ipv4_string_to_uint}
use nyan_sd.Nyansd.Registry.{add_service}

abbrev hello_service : Service
hello_service = record blank_service { port = 11310; protocol = tcp; service = text "HelloService" }

-- The same variable with some fields given anew.
abbrev ssl_service : ℕ → Service
ssl_service ipv4 = record hello_service {
  port = 22;
  protocol = tcp;
  service = text "SSLService";
  ipv6 = text "2001:0db8:0000:0000:0000:8a2e:0370:7334";
  ipv4 = ipv4;
}

abbrev http_service : ℕ → Service
http_service ipv4 = record (ssl_service ipv4) {
  port = 80;
  protocol = tcp;
  service = text "HTTPService";
}

register_all : Bytes → List Service → List Service → List Service
register_all host_name [] services = services
register_all host_name (sv ∷ svs) services =
    register_all host_name svs (add_service host_name sv services).1

with_ipv4 : Bytes → Option ℕ → Option (List Service)
unfolding register_all
with_ipv4 host_name none = none
with_ipv4 host_name (some ipv4) =
    some (register_all host_name (hello_service ∷ ssl_service ipv4 ∷ http_service ipv4 ∷ []) [])

-- The registry when `main` starts the listener; `none` is an exception.
unfoldable pub server_main : BbEndianness → Bytes → Option (List Service)
unfolding with_ipv4
server_main machine host_name =
    with_ipv4 host_name (ipv4_string_to_uint machine (text "192.168.0.42"))
