-- ===== src/Server/Registered.antt =====
-- What the reference server registers.
use nyan_sd.Base.{ℕ, ◌≡◌, refl, ap, some, [], ◌∷◌, text, Bytes}
use nyan_sd.ByteBauble.{BbEndianness, bb_le, bb_be, load, of_le}
use nyan_sd.Nyansd.{tcp, Service}
use nyan_sd.Nyansd.Ipv4.{
  ipv4_string_to_uint, ipv4_string_to_uint_in, parse_octets, find, find_loop, substr, stoul,
}
use nyan_sd.Nyansd.Registry.{add_service}
use nyan_sd.Server.{with_ipv4, server_main}

-- The number that stands for 192.168.0.42 on a machine.
abbrev pub address_42 : BbEndianness → ℕ
address_42 bb_le = 0x2A00A8C0
address_42 bb_be = 0xC0A8002A

address_42_lem :
    (machine : BbEndianness)
    → ipv4_string_to_uint machine (text "192.168.0.42") ≡ some (address_42 machine)
unfolding ipv4_string_to_uint ipv4_string_to_uint_in parse_octets find find_loop substr stoul load
    of_le
address_42_lem bb_le = refl
address_42_lem bb_be = refl

-- A TCP service of this host.
abbrev pub tcp_service : Bytes → ℕ → Bytes → ℕ → Bytes → Service
tcp_service host_name ipv4 ipv6 port name = record {
  ipv4 = ipv4;
  ipv6 = ipv6;
  port = port;
  hostname = host_name;
  service = name;
  protocol = tcp;
}

abbrev pub documentation_ipv6 : Bytes
documentation_ipv6 = text "2001:0db8:0000:0000:0000:8a2e:0370:7334"

-- On every machine and for every host name the server starts its listener with three TCP services
-- of that host, in this order: HelloService at port 11310 with no address of its own, and
-- SSLService at port 22 and HTTPService at port 80, both with 192.168.0.42 and the same IPv6 text.
pub server_main_lem :
    (machine : BbEndianness) (host_name : Bytes)
    → server_main machine host_name
      ≡ some (
          tcp_service host_name 0 [] 11310 (text "HelloService")
          ∷ tcp_service host_name (address_42 machine) documentation_ipv6 22 (text "SSLService")
          ∷ tcp_service host_name (address_42 machine) documentation_ipv6 80 (text "HTTPService")
          ∷ [])
unfolding server_main add_service with_ipv4
server_main_lem machine host_name = ap (with_ipv4 host_name) (address_42_lem machine)
