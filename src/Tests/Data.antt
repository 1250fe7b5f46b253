-- ===== src/Tests/Data.antt =====
-- The inputs of the tests.
use nyan_sd.Base.{
  refl, inl, inr, ℕ, zero, suc, ◌<◌, List, [], ◌∷◌, ◌++◌, All, arith, equal, text, Bytes, IsByte,
}
use nyan_sd.ByteBauble.{bb_le, bb_be, store, le_bytes}
use nyan_sd.Nyansd.{tcp, udp, all, Service, Query, FitsSection}
use nyan_sd.Nyansd.Ipv4.{decimal, dotted, ipv4_uint_to_string}
use nyan_sd.Nyansd.LocalIp.Found.{FirstOnNetwork}
use nyan_sd.Nyansd.LocalIp.{af_inet, af_inet6, Address, LocalIp, found}
use nyan_sd.Nyansd.SendQuery.{query_section, query_sections}
use nyan_sd.Nyansd.Response.Section.{section, section_list}
use nyan_sd.Nyansd.Response.Message.{message, message_with, FitsMessage}
use nyan_sd.Nyansd.Handler.Answers.{localize, matching}
use nyan_sd.Nyansd.Handler.Announced.{FitsServer, announced}
use nyan_sd.Nyansd.Handler.Queries.{FitsBroadcast}
use nyan_sd.Nyansd.Discovery.{Server, CanAnswer}

-- A service without an address of its own, and one with 192.168.0.42.
abbrev pub hello : Service
hello = record {
  ipv4 = 0;
  ipv6 = [];
  port = 11310;
  hostname = text "alpha";
  service = text "Hello";
  protocol = tcp;
}

abbrev pub web : Service
web = record {
  ipv4 = 0x2A00A8C0;
  ipv6 = text "fe80::1";
  port = 80;
  hostname = text "alpha";
  service = text "Web";
  protocol = udp;
}

-- The address 192.168.0.5 of an interface.
abbrev pub local : LocalIp
local = found 0x0500A8C0 []

abbrev pub hello_there : Service
hello_there = record hello { ipv4 = 0x0500A8C0 }

abbrev pub services : List Service
services = hello ∷ web ∷ []

-- The loopback interface, and one with that address behind an IPv6 one.
abbrev pub interfaces : List (List Address)
interfaces =
    (record { family = af_inet; text = text "127.0.0.1" } ∷ [])
    ∷ (record { family = af_inet6; text = text "fe80::5%eth0" }
        ∷ record { family = af_inet; text = text "192.168.0.5" }
        ∷ [])
    ∷ []

-- A query for all services, and one for those of one name.
abbrev pub for_all : Query
for_all = record { protocol = all; filter = [] }

abbrev pub for_web : Query
for_web = record { protocol = tcp; filter = text "Web" }

abbrev pub queries : List Query
queries = for_all ∷ for_web ∷ []

abbrev pub alpha : Server
alpha = record { machine = bb_be; local = local; services = services; leftover = text "old" }

pub FitsSection-hello : FitsSection hello
FitsSection-hello = record {
  ipv4_fits = omega arith;
  ipv6_fits = omega arith;
  port_fits = omega arith;
  hostname_fits = omega arith;
  service_fits = omega arith;
}

pub FitsSection-hello_there : FitsSection hello_there
FitsSection-hello_there = record {
  ipv4_fits = omega arith;
  ipv6_fits = omega arith;
  port_fits = omega arith;
  hostname_fits = omega arith;
  service_fits = omega arith;
}

pub FitsSection-web : FitsSection web
FitsSection-web = record {
  ipv4_fits = omega arith;
  ipv6_fits = omega arith;
  port_fits = omega arith;
  hostname_fits = omega arith;
  service_fits = omega arith;
}

pub FitsServer-services : FitsServer local services
unfolding section_list section localize le_bytes
FitsServer-services = record {
  ready = ((FitsSection-hello_there, omega arith), ((FitsSection-web, omega arith), tt));
  count_fits = omega arith;
  length_fits = omega arith;
}

pub FitsBroadcast-queries : FitsBroadcast queries
unfolding query_sections query_section
FitsBroadcast-queries = record {
  some_query = omega arith;
  count_fits = omega arith;
  each_fits = (omega arith, (omega arith, tt));
  length_fits = omega arith;
}

pub CanAnswer-alpha : CanAnswer queries alpha
unfolding message message_with section_list section localize le_bytes matching announced equal
CanAnswer-alpha = record {
  services_fit = FitsServer-services;
  replies_fit = (omega arith, (omega arith, tt));
}

pub FitsMessage-services : FitsMessage services
unfolding section_list section le_bytes
FitsMessage-services = record {
  each_fits = (FitsSection-hello, (FitsSection-web, tt));
  count_fits = omega arith;
  length_fits = omega arith;
}

-- A query for TCP services with a filter that is said to be longer than it is.
abbrev pub strange : Bytes
strange = text "NYANSD" ++ (0x06 ∷ 0x00 ∷ 0x01 ∷ 0x01 ∷ b'Q' ∷ 0x01 ∷ 0x09 ∷ b'W' ∷ [])

pub strange_bytes : All IsByte strange
strange_bytes = (
  omega arith,
  (
    omega arith,
    (
      omega arith,
      (
        omega arith,
        (
          omega arith,
          (
            omega arith,
            (
              omega arith,
              (
                omega arith,
                (
                  omega arith,
                  (omega arith, (omega arith, (omega arith, (omega arith, (omega arith, tt))))),
                ),
              ),
            ),
          ),
        ),
      ),
    ),
  ),
)

abbrev pub repeated {ℓ} : {A : Type ℓ} → ℕ → A → List A
repeated zero c = []
repeated (suc n) c = c ∷ repeated n c

pub repeated-IsByte : (n c : ℕ) → c < 256 → All IsByte (repeated n c)
repeated-IsByte zero c h = tt
repeated-IsByte (suc n) c h = (h, repeated-IsByte n c h)

pub on_network :
    FirstOnNetwork (text "192.168.0" ++ b'.' ∷ []) (ipv4_uint_to_string bb_le 0x0500A8C0) interfaces
unfolding ipv4_uint_to_string store le_bytes dotted decimal
on_network = inr (
  (λ (rest, e). ground (arith, e), tt),
  inl (inr (inl (text "5", refl)), inr (refl, inl (refl, refl))),
)
