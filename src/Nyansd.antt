-- ===== src/Nyansd.antt =====
-- src/nyansd.h: the types of the protocol. A std::string is its bytes, and an integer of `k` bits
-- a number below 2 ^ k. The child modules model src/nyansd.cpp.
pub mod Wire
pub mod Handler
pub mod Ipv4
pub mod LocalIp
pub mod Response
pub mod SendQuery
pub mod Discovery
pub mod Registry
pub mod Lifecycle
use nyan_sd.Base.{ℕ, Bytes, [], ◌∷◌, ◌≤◌, ◌<◌, ◌^◌, length, All, IsByte}

-- `NYSD_message_type`
pub data MessageType : Type 0 where
  broadcast response : MessageType

abbrev pub message_code : MessageType → ℕ
message_code broadcast = 0x01
message_code response = 0x02

-- `NYSD_protocol`
pub data Protocol : Type 0 where
  all tcp udp : Protocol

abbrev pub protocol_code : Protocol → ℕ
protocol_code all = 0x00
protocol_code tcp = 0x01
protocol_code udp = 0x02

-- `NYSD_service`
pub record Service : Type 0 where
  pub ipv4 : ℕ
  pub ipv6 : Bytes
  pub port : ℕ
  pub hostname : Bytes
  pub service : Bytes
  pub protocol : Protocol

-- A fresh `NYSD_service`.
abbrev pub blank_service : Service
blank_service = record {
  ipv4 = 0;
  ipv6 = [];
  port = 0;
  hostname = [];
  service = [];
  protocol = all;
}

-- `NYSD_query`
pub record Query : Type 0 where
  pub protocol : Protocol
  pub filter : Bytes

-- "NYANSD", with which every message starts.
abbrev pub signature : Bytes
signature = b'N' ∷ b'Y' ∷ b'A' ∷ b'N' ∷ b'S' ∷ b'D' ∷ []

-- The lengths of a service that its section has room for.
pub record FitsSection (sv : Service) : Type 0 where
  pub ipv4_fits : sv.ipv4 < 256 ^ 4
  pub ipv6_fits : length sv.ipv6 < 256
  pub port_fits : sv.port < 256 ^ 2
  pub hostname_fits : length sv.hostname < 256 ^ 2
  pub service_fits : length sv.service < 256 ^ 2
